-- ===== src/Artifacts/Laws.antt =====
-- The URLs of the artifacts.
use midnight_js.Prelude.{◌≡◌, Text, codes}
use mathlib.Core.List.{append_cancel_left, append_cancel_right}
use midnight_js.Artifacts.{request_url}

-- Two circuits' artifacts of the same kind are requested from different URLs.
pub request_url_injective :
    (base url ext a b : Text) → request_url base url a ext ≡ request_url base url b ext → a ≡ b
unfolding request_url
request_url_injective base url ext a b h = append_cancel_right a b ext (
    append_cancel_left (codes "/") _ _ (
      append_cancel_left url _ _
        (append_cancel_left (codes "/") _ _ (append_cancel_left base _ _ h))))
