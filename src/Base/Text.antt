-- ===== src/Base/Text.antt =====
-- Python's text methods over the code points of a text: `strip`, `lower`, `upper`, `startswith`,
-- with the ASCII blanks and letters.
use Prim.Native.Char.{code}
use unwind.Base.{
  ℕ, ◌+◌, ◌-◌, String, Bool, true, false, ◌&&◌, ◌||◌, List, [], ◌∷◌, map, leb, ltb, ◌==◌,
  if◌then◌else◌, drop, length, ◌≡◌, refl, ◌↔◌, arith, All, ◌++◌, ap, ◌≤◌, ◌⊎◌, ◌∙◌,
}

abbrev pub Text : Type 0
Text = List ℕ

abbrev pub codes : String → Text
codes String.[] = []
codes (String.◌∷◌ c s) = code c ∷ codes s

unfoldable pub same_text : Text → Text → Bool
same_text [] [] = true
same_text (c ∷ s) (d ∷ t) = c == d && same_text s t
same_text _ _ = false

-- Tab to carriage return, the four separators 28 to 31, and the blank.
unfoldable pub is_blank : ℕ → Bool
is_blank c = (leb 9 c && leb c 13) || (leb 28 c && leb c 32)

unfoldable pub lstrip : Text → Text
unfolding is_blank
lstrip [] = []
lstrip (c ∷ s) = let rest = lstrip s in if is_blank c then rest else c ∷ s

unfoldable pub rstrip : Text → Text
unfolding is_blank
rstrip [] = []
rstrip (c ∷ s) = drop_last (rstrip s)
  where
    drop_last : Text → Text
    drop_last [] = if is_blank c then [] else c ∷ []
    drop_last (d ∷ t) = c ∷ d ∷ t

unfoldable pub strip : Text → Text
unfolding lstrip rstrip
strip s = rstrip (lstrip s)

unfoldable pub lower : Text → Text
lower = map (λ c. if leb b'A' c && leb c b'Z' then c + 32 else c)

unfoldable pub upper : Text → Text
upper = map (λ c. if leb b'a' c && leb c b'z' then c - 32 else c)

-- `s.startswith(prefix)`
unfoldable pub starts_with : Text → Text → Bool
starts_with s [] = true
starts_with [] (d ∷ p) = false
starts_with (c ∷ s) (d ∷ p) = c == d && starts_with s p

-- The longest prefix of letters a to z, as the pattern `[a-z]+` matches it.
unfoldable pub leading_letters : Text → Text
leading_letters [] = []
leading_letters (c ∷ s) =
    let rest = leading_letters s in if leb b'a' c && leb c b'z' then c ∷ rest else []

-- `p in s` for texts.
unfoldable pub has_infix : Text → Text → Bool
has_infix [] p = starts_with [] p
has_infix (c ∷ s) p = starts_with (c ∷ s) p || has_infix s p

-- `s.removeprefix(p)`
unfoldable pub remove_prefix : Text → Text → Text
remove_prefix s p = if starts_with s p then drop (length p) s else s

-- `s <= t` for texts: the order of their code points.
unfoldable pub text_leb : Text → Text → Bool
text_leb [] t = true
text_leb (c ∷ s) [] = false
text_leb (c ∷ s) (d ∷ t) = ltb c d || (c == d && text_leb s t)

-- The text of one after another.
unfoldable pub join : String → String → String
join String.[] t = t
join (String.◌∷◌ c s) t = String.◌∷◌ c (join s t)

pub same_text_iff : (s t : Text) → (same_text s t ≡ true) ↔ (s ≡ t)
unfolding same_text
same_text_iff [] [] = (λ h. refl, λ h. refl)
same_text_iff [] (d ∷ t) = (λ h. ground (arith, h), λ h. ground (arith, h))
same_text_iff (c ∷ s) [] = (λ h. ground (arith, h), λ h. ground (arith, h))
same_text_iff (c ∷ s) (d ∷ t) =
    (λ h. ground (arith, h, (same_text_iff s t).0), λ h. ground (arith, h, (same_text_iff s t).1))

-- The blank characters, in words.
abbrev pub IsBlank : ℕ → Type 0
IsBlank c = ((9 ≤ c) × (c ≤ 13)) ⊎ ((28 ≤ c) × (c ≤ 32))

is_blank_lem : (c : ℕ) → IsBlank c → is_blank c ≡ true
unfolding is_blank
is_blank_lem c h = ground (arith, h)

lstrip-blanks : (pre s : Text) → All IsBlank pre → lstrip (pre ++ s) ≡ lstrip s
unfolding lstrip
lstrip-blanks [] s h = refl
lstrip-blanks (c ∷ pre) s h = rw (is_blank_lem c h.0) (lstrip-blanks pre s h.1)

rstrip_nothing : (post : Text) → All IsBlank post → rstrip post ≡ []
unfolding rstrip
rstrip_nothing [] h = refl
rstrip_nothing (c ∷ post) h = rw (rstrip_nothing post h.1, is_blank_lem c h.0) refl

abbrev pub IsInk : ℕ → Type 0
IsInk c = is_blank c ≡ false

rstrip-blanks : (w post : Text) → All IsInk w → All IsBlank post → rstrip (w ++ post) ≡ w
unfolding rstrip
rstrip-blanks [] post h k = rstrip_nothing post k
rstrip-blanks (c ∷ []) post h k = rw (rstrip_nothing post k, h.0) refl
rstrip-blanks (c ∷ d ∷ w) post h k = rw (rstrip-blanks (d ∷ w) post h.1 k) refl

lstrip_nothing : (post : Text) → All IsBlank post → lstrip post ≡ []
unfolding lstrip
lstrip_nothing [] h = refl
lstrip_nothing (c ∷ post) h = rw (is_blank_lem c h.0) (lstrip_nothing post h.1)

strip-right : (w post : Text) → All IsInk w → All IsBlank post → rstrip (lstrip (w ++ post)) ≡ w
unfolding lstrip rstrip
strip-right [] post i k = rw (lstrip_nothing post k) refl
strip-right (c ∷ w) post i k = rw i.0 (rstrip-blanks (c ∷ w) post i k)

-- Blanks about a word without any are what `strip` takes away.
pub strip-blanks :
    (pre w post : Text)
    → All IsBlank pre
    → All IsInk w
    → All IsBlank post
    → strip (pre ++ (w ++ post)) ≡ w
unfolding strip
strip-blanks pre w post h i k = ap rstrip (lstrip-blanks pre (w ++ post) h) ∙ strip-right w post i k
