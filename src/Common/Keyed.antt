-- ===== src/Common/Keyed.antt =====
-- Arrays whose elements carry a text key: the update that the front end writes out wherever an
-- element with a known key is to be replaced, and one with a new key appended.
pub mod Laws
pub mod Sorted
pub mod Mapped
use Prim.Native.String.{String}
use mathlib.Core.Bool.{Bool}
use mathlib.Core.List.{List, [], ◌∷◌, ◌++◌, map}
use text.Mathlib.Text.{◌==◌}
use acp_webui.Common.Tests.{if◌then◌else◌}
use acp_webui.Common.Lists.{any}

module _ {ℓ} {A : Type ℓ} (key : A → String) where
  -- `xs.map((candidate) => (key(candidate) === key(item) ? item : candidate))`
  unfoldable pub replace : A → List A → List A
  replace item xs = map (λ candidate. if key candidate == key item then item else candidate) xs

  unfoldable pub upsert : A → List A → List A
  unfolding replace
  upsert item xs =
      if any (λ candidate. key candidate == key item) xs then replace item xs else xs ++ item ∷ []
