-- ===== src/Bisect/Version.antt =====
-- `version_key`, `is_cloud_broker` and `is_real_io_key` of bisect.py. A text is walked as its code
-- points; `\d`, `lower()`, `strip()` and IGNORECASE are read for ASCII.
use sbc_mcu_dut_controller.Prelude.{
  codes, lower, ℕ, ◌+◌, ◌-◌, ◌*◌, String, Bool, true, false, not, ◌&&◌, ◌||◌, Option, none, some,
  List, [], ◌∷◌, ◌++◌, map, leb, ◌==◌, if◌then◌else◌,
}
use mathlib.Core.List.{reverse}

pub record Key : Type 0 where
  pub x : ℕ
  pub y : ℕ
  pub z : ℕ
  pub beta : ℕ

-- `_FINAL`: a final release sorts above its betas.
abbrev pub final_rank : ℕ
final_rank = 1_000_000

abbrev pub is_digit : ℕ → Bool
is_digit c = leb b'0' c && leb c b'9'

-- The longest run of digits, as `int()` reads it after `acc`, and what follows it.
unfoldable pub digit_run : ℕ → List ℕ → ℕ × List ℕ
digit_run acc [] = (acc, [])
digit_run acc (c ∷ cs) =
    let more = digit_run (acc * 10 + (c - b'0')) cs in if is_digit c then more else (acc, c ∷ cs)

-- `(\d+)`
unfoldable pub number : List ℕ → Option (ℕ × List ℕ)
unfolding digit_run
number [] = none
number (c ∷ cs) = if is_digit c then some (digit_run 0 (c ∷ cs)) else none

-- A literal, in either case of its letters.
unfoldable pub literal : List ℕ → List ℕ → Option (List ℕ)
literal [] s = some s
literal (p ∷ ps) [] = none
literal (p ∷ ps) (c ∷ cs) = let rest = literal ps cs in if lower c == p then rest else none

abbrev pub bind {ℓ} : {A B : Type ℓ} → Option A → (A → Option B) → Option B
bind none f = none
bind (some a) f = f a

-- `(?:-(?:offline-)?beta\.(\d+))?`: the beta number, where the suffix is there.
unfoldable pub beta_suffix : List ℕ → Option ℕ
unfolding number literal
beta_suffix s = bind (literal (codes "-") s) λ t.
    let u : List ℕ = elim (literal (codes "offline-") t) [ some r ↦ r | none ↦ t ] in
    bind (literal (codes "beta.") u) λ v. bind (number v) λ (b, _). some b

-- The pattern at the head of the text.
unfoldable pub match_here : List ℕ → Option Key
unfolding beta_suffix
match_here s = bind (number s) λ (x, s₁). bind (literal (codes ".") s₁) λ s₂.
    bind (number s₂) λ (y, s₃). bind (literal (codes ".") s₃) λ s₄. bind (number s₄) λ (z, s₅).
      some (record {
        x = x;
        y = y;
        z = z;
        beta = elim (beta_suffix s₅) [ some b ↦ b | none ↦ final_rank ];
      })

-- `_VER_RE.search`: the leftmost match.
unfoldable pub search_key : List ℕ → Option Key
unfolding match_here
search_key [] = match_here []
search_key (c ∷ cs) =
    let later = search_key cs in elim (match_here (c ∷ cs)) [ some k ↦ some k | none ↦ later ]

unfoldable pub version_key : String → Option Key
unfolding search_key
version_key tag = search_key (codes tag)

abbrev is_space : ℕ → Bool
is_space c = c == 32 || (leb 9 c && leb c 13)

abbrev lstrip : List ℕ → List ℕ
lstrip [] = []
lstrip (c ∷ cs) = if is_space c then lstrip cs else c ∷ cs

-- `s.strip().lower()`
unfoldable pub normalised : String → List ℕ
normalised s = map lower (reverse (lstrip (reverse (lstrip (codes s)))))

-- `s.split(sep, 1)[0]`, for one character
abbrev pub before : ℕ → List ℕ → List ℕ
before sep [] = []
before sep (c ∷ cs) = if c == sep then [] else c ∷ before sep cs

-- `s.split("://", 1)[-1]`
unfoldable pub after_scheme : List ℕ → List ℕ → List ℕ
unfolding literal
after_scheme whole [] = whole
after_scheme whole (c ∷ cs) =
    let later = after_scheme whole cs in
    elim (literal (codes "://") (c ∷ cs)) [ some rest ↦ rest | none ↦ later ]

abbrev pub same_codes : List ℕ → List ℕ → Bool
same_codes [] [] = true
same_codes (a ∷ s) (b ∷ t) = a == b && same_codes s t
same_codes _ _ = false

-- The literal up to the end of the text, or to a newline that ends it.
abbrev is_io_host : List ℕ → Bool
is_io_host s =
    same_codes s (codes "adafruit.com")
    || same_codes s (codes "adafruit.us")
    || same_codes s (codes "adafruit.com" ++ 10 ∷ [])
    || same_codes s (codes "adafruit.us" ++ 10 ∷ [])

-- `(^|\.)adafruit\.(com|us)$`, searched behind each dot.
unfoldable pub io_suffix : List ℕ → Bool
io_suffix [] = false
io_suffix (c ∷ cs) = (c == b'.' && is_io_host cs) || io_suffix cs

unfoldable pub is_cloud_broker : String → Bool
unfolding normalised after_scheme io_suffix
is_cloud_broker io_url =
    let url = normalised io_url in
    let host : List ℕ = before b':' (before b'/' (after_scheme url url)) in
    is_io_host host || io_suffix host

unfoldable pub is_real_io_key : String → Bool
unfolding normalised
is_real_io_key key =
    let k = normalised key in
    not (
      same_codes k []
      || same_codes k (codes "placeholder")
      || same_codes k (codes "your_aio_key_here")
      || same_codes k (codes "your_io_key_here"))
