-- ===== src/Shortener.antt =====
-- services/url-shortener: shortcode/generator.go, storage/memory.go and service/service.go. The numbers of
-- crypto/rand are read one after the other from `Source`, and the state keeps the place of the next.
pub mod Lookups
mod Samples
use faisalaffan_design_syste.Base.{
  ℕ, zero, suc, ◌+◌, ◌<◌, String, ◌≡◌, ◌⊎◌, inl, inr, Bool, true, false, Option, none, some, List,
  [], ◌∷◌, if◌then◌else◌, length, get_elem?, nat_key, string_key, lookup, insert, get_or,
  str_append,
}

-- crypto/rand: the number below a bound that `Int` reads at a place, or its error.
pub record Source : Type 0 where
  pub int : ℕ → ℕ → Option ℕ
  pub int_lt : (bound place i : ℕ) → int bound place ≡ some i → i < bound

-- The bytes of the alphabet, each as a string.
abbrev pub alphabet : List String
alphabet =
    "a" ∷ "b" ∷ "c" ∷ "d" ∷ "e" ∷ "f" ∷ "g" ∷ "h" ∷ "i" ∷ "j" ∷ "k" ∷ "l" ∷ "m" ∷ "n" ∷ "o" ∷ "p"
    ∷ "q" ∷ "r" ∷ "s" ∷ "t" ∷ "u" ∷ "v" ∷ "w" ∷ "x" ∷ "y" ∷ "z" ∷ "A" ∷ "B" ∷ "C" ∷ "D" ∷ "E" ∷ "F"
    ∷ "G" ∷ "H" ∷ "I" ∷ "J" ∷ "K" ∷ "L" ∷ "M" ∷ "N" ∷ "O" ∷ "P" ∷ "Q" ∷ "R" ∷ "S" ∷ "T" ∷ "U" ∷ "V"
    ∷ "W" ∷ "X" ∷ "Y" ∷ "Z" ∷ "0" ∷ "1" ∷ "2" ∷ "3" ∷ "4" ∷ "5" ∷ "6" ∷ "7" ∷ "8" ∷ "9" ∷ []

abbrev pub code_length : ℕ
code_length = 7

-- `string(code)`
abbrev pub joined : List String → String
joined [] = ""
joined (letter ∷ letters) = str_append letter (joined letters)

-- `MemoryStore`, with the place in the source.
pub record State : Type 0 where
  pub data_of : List (String × String)
  pub place : ℕ

unfoldable pub save : String → String → State → State
save code url s = record s { data_of = insert code url s.data_of }

-- `Get`, which is also `ShortenService.Lookup`; none is ErrNotFound.
unfoldable pub get : String → State → Option String
get code s = lookup code s.data_of

unfoldable pub exists : String → State → Bool
unfolding get
exists code s = found (get code s)
  where
    found : Option String → Bool
    found none = false
    found (some url) = true

pub record ShortenResult : Type 0 where
  pub short_url : String
  pub code : String

pub data ShortenError : Type 0 where
  generate_failed no_unique_code : ShortenError

-- A byte of the code before the others; the law of the source keeps the index inside the alphabet.
abbrev pub with_letter : ℕ → Option (List String) → Option (List String)
with_letter i none = none
with_letter i (some letters) = some (get_or (get_elem? alphabet i) "" ∷ letters)

-- A round of the loop of `Generate`; the first error of the source ends it.
abbrev pub next_letter : ℕ → Option ℕ → ℕ × Option (List String) → ℕ × Option (List String)
next_letter place none rest = (place + 1, none)
next_letter place (some i) rest = (rest.0, with_letter i rest.1)

abbrev pub code_of : Option (List String) → Option String
code_of none = none
code_of (some letters) = some (joined letters)

-- A round of `Shorten` on the answer of Generate; `rest` are the rounds after it.
unfoldable pub attempt :
    String
    → String
    → Option String
    → State
    → State × (ShortenError ⊎ ShortenResult)
    → State × (ShortenError ⊎ ShortenResult)
unfolding exists save
attempt base_url url none s rest = (s, inl generate_failed)
attempt base_url url (some code) s rest = if exists code s then rest else (
  save code url s,
  inr (record { short_url = str_append base_url (str_append "/" code); code = code }),
)

module _ (source : Source) where
  unfoldable pub generate_letters : ℕ → ℕ → ℕ × Option (List String)
  generate_letters zero place = (place, some [])
  generate_letters (suc n) place =
      next_letter place (source.int (length alphabet) place) (generate_letters n (place + 1))

  -- `Generate`; none is its error.
  unfoldable pub generate : State → State × Option String
  unfolding generate_letters
  generate s =
      let g = generate_letters code_length s.place in (record s { place = g.0 }, code_of g.1)

  module _ (base_url : String) where
    unfoldable pub shorten_in : ℕ → String → State → State × (ShortenError ⊎ ShortenResult)
    unfolding generate attempt
    shorten_in zero url s = (s, inl no_unique_code)
    shorten_in (suc n) url s =
        let g = generate s in attempt base_url url g.1 g.0 (shorten_in n url g.0)

    -- `Shorten`
    unfoldable pub shorten : String → State → State × (ShortenError ⊎ ShortenResult)
    unfolding shorten_in
    shorten url s = shorten_in 5 url s
