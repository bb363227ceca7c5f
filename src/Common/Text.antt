-- ===== src/Common/Text.antt =====
-- Text as the source uses it: equality, membership, truthiness, and the blank test of `trim`.
use Prim.Native.Nat.{ℕ}
use Prim.Native.Char.{Char, code}
use mathlib.Core.Path.{◌≡◌, refl, ap, ◌∙◌}
use Prim.Native.String
use Prim.Native.String.append
use Prim.Native.String.{String}
use mathlib.Core.Bool.{Bool, true, false, not, ◌&&◌, ◌||◌}
use mathlib.Core.List.{List, [], ◌∷◌}
use mathlib.Core.Option.{Option, none, some}
use text.Mathlib.Text.{◌==◌ as str_eq}
use ambit.Common.Tests.{◌==◌, leb, if◌then◌else◌}
use ambit.Common.Lists.{any}

-- The white space and line terminators of ECMAScript, which `String.prototype.trim` removes.
abbrev pub is_space : ℕ → Bool
is_space c =
    (leb 9 c && leb c 13)
    || c == 32
    || c == 160
    || c == 0x1680
    || (leb 0x2000 c && leb c 0x200a)
    || c == 0x2028
    || c == 0x2029
    || c == 0x202f
    || c == 0x205f
    || c == 0x3000
    || c == 0xfeff

-- `s.trim().length === 0`
unfoldable pub is_blank : String → Bool
is_blank String.[] = true
is_blank (String.◌∷◌ c s) = is_space (code c) && is_blank s

-- The code points of a text.
abbrev pub codes : String → List ℕ
codes String.[] = []
codes (String.◌∷◌ c s) = code c ∷ codes s

-- `xs.includes(x)`
abbrev pub includes : List String → String → Bool
includes xs x = any (λ y. str_eq y x) xs

-- The truthiness of an optional string: an empty one counts as absent.
abbrev pub given : Option String → Bool
given none = false
given (some s) = not (str_eq s "")

-- Whether something was found.
abbrev pub is_some {ℓ} : {A : Type ℓ} → Option A → Bool
is_some none = false
is_some (some a) = true

-- Equality of a text with an optional one.
abbrev pub is_some_eq : Option String → String → Bool
is_some_eq none s = false
is_some_eq (some t) s = str_eq t s

-- A template literal: its pieces, one after another.
unfoldable pub template : List String → String
template [] = ""
template (s ∷ ss) = String.◌++◌ s (template ss)

-- `xs.join(sep)`
pub join : String → List String → String
join sep [] = ""
join sep (s ∷ []) = s
join sep (s ∷ t ∷ ss) = String.◌++◌ s (String.◌++◌ sep (join sep (t ∷ ss)))

-- A text cut at the first character with the code `c`: what stands before it, and what stands after
-- it if there is one.
unfoldable pub cut : ℕ → String → String × Option String
cut c String.[] = ("", none)
cut c (String.◌∷◌ x s) =
    let (before, after) = cut c s in
    if code x == c then ("", some s) else (String.◌∷◌ x before, after)

-- No character of the text has the code.
abbrev pub Excludes : ℕ → String → Type 0
Excludes c String.[] = Unit
Excludes c (String.◌∷◌ x s) = (code x == c ≡ false) × Excludes c s

append_empty : (s : String) → String.◌++◌ s "" ≡ s
append_empty String.[] = append.nil ""
append_empty (String.◌∷◌ c s) = append.cons c s "" ∙ ap (String.◌∷◌ c) (append_empty s)

-- A text is cut where its first part, which has no such character, ends.
pub cut-append :
    (c : ℕ) (s t : String) (x : Char)
    → Excludes c s
    → code x == c ≡ true
    → cut c (String.◌++◌ s (String.◌∷◌ x t)) ≡ (s, some t)
unfolding cut
cut-append c String.[] t x h e = rw (append.nil (String.◌∷◌ x t), e) refl
cut-append c (String.◌∷◌ y s) t x h e =
    rw (append.cons y s (String.◌∷◌ x t), cut-append c s t x h.1 e, h.0) refl

pub cut_whole : (c : ℕ) (s : String) → Excludes c s → cut c s ≡ (s, none)
unfolding cut
cut_whole c String.[] h = refl
cut_whole c (String.◌∷◌ y s) h = rw (cut_whole c s h.1, h.0)

-- Two parts joined by one character are cut there.
pub cut-template :
    (c : ℕ) (s t : String) (x : Char)
    → Excludes c s
    → code x == c ≡ true
    → cut c (template (s ∷ String.◌∷◌ x String.[] ∷ t ∷ [])) ≡ (s, some t)
unfolding template
cut-template c s t x h e =
    rw (append.cons x "" (String.◌++◌ t ""), append.nil (String.◌++◌ t ""), append_empty t)
      (cut-append c s t x h e)
