-- ===== src/Shortener/Lookups.antt =====
-- services/url-shortener: what Shorten stores, and that a stored url is not written over.
use faisalaffan_design_syste.Base.{
  ℕ, zero, suc, ◌+◌, ◌<◌, String, ◌≡◌, refl, sym, ap, ◌∙◌, subst, ◌≢◌, ◌⊎◌, inl, inr, true, false,
  Option, none, some, List, [], ◌∷◌, arith, Bool-cases, Option-cases, length, none-ne-some,
  get_elem?, All, nat_key, string_key, lookup, lookup-insert_self, lookup-insert_ne, get_or,
  str_append,
}
use faisalaffan_design_syste.Shortener.{
  Source, alphabet, code_length, joined, State, save, get, exists, ShortenResult, ShortenError,
  generate_failed, no_unique_code, with_letter, next_letter, code_of, generate_letters, generate,
  attempt, shorten_in, shorten,
}

abbrev pub IsLetter : String → Type 0
IsLetter x = (i : ℕ) × (get_elem? alphabet i ≡ some x)

-- Seven letters of the alphabet.
abbrev pub IsCode : String → Type 0
IsCode code =
    (letters : List String) × (code ≡ joined letters) × (length letters ≡ 7) × All IsLetter letters

abbrev Answer : Type 0
Answer = State × (ShortenError ⊎ ShortenResult)

some-inj {ℓ} : {A : Type ℓ} {a b : A} → some a ≡ some b → a ≡ b
some-inj {a = a} e = ap (λ o. get_or o a) e

get_elem?-some :
    {A : Type 0} (d : A) (xs : List A) (i : ℕ)
    → i < length xs
    → get_elem? xs i ≡ some (get_or (get_elem? xs i) d)
get_elem?-some d [] i h = absurd (omega (arith, h))
get_elem?-some d (x ∷ xs) zero h = refl
get_elem?-some d (x ∷ xs) (suc i) h = get_elem?-some d xs i (omega (arith, h))

with_letter-IsLetter :
    (n i : ℕ) (rest : Option (List String)) (letters : List String)
    → i < length alphabet
    → ((ls : List String) → rest ≡ some ls → (length ls ≡ n) × All IsLetter ls)
    → with_letter i rest ≡ some letters
    → (length letters ≡ suc n) × All IsLetter letters
with_letter-IsLetter n i none letters h ih e = absurd (none-ne-some e)
with_letter-IsLetter n i (some ls) letters h ih e =
    let got = ih ls refl in
    subst (λ k. (length k ≡ suc n) × All IsLetter k) (some-inj e)
      (ap suc got.0, ((i, get_elem?-some "" alphabet i h), got.1))

module _ (source : Source) where
  generate_letters-IsLetter :
      (n p : ℕ) (letters : List String)
      → (generate_letters source n p).1 ≡ some letters
      → (length letters ≡ n) × All IsLetter letters
  unfolding generate_letters
  generate_letters-IsLetter zero p letters e =
      subst (λ k. (length k ≡ 0) × All IsLetter k) (some-inj e) (refl, tt)
  generate_letters-IsLetter (suc n) p letters e =
      elim (Option-cases (source.int (length alphabet) p)) [
        | inl f ↦ absurd (none-ne-some (ap (λ o. (next_letter p o rest).1) (sym f) ∙ e))
        | inr (i, f) ↦
            with_letter-IsLetter n i rest.1 letters (source.int_lt (length alphabet) p i f)
              (generate_letters-IsLetter n (p + 1)) (ap (λ o. (next_letter p o rest).1) (sym f) ∙ e)
      ]
    where
      rest : ℕ × Option (List String)
      rest = generate_letters source n (p + 1)

  generate-IsCode : (s : State) (code : String) → (generate source s).1 ≡ some code → IsCode code
  unfolding generate
  generate-IsCode s code e = elim (Option-cases (generate_letters source code_length s.place).1) [
    | inl f ↦ absurd (none-ne-some (ap code_of (sym f) ∙ e))
    | inr (letters, f) ↦
        let ok = generate_letters-IsLetter code_length s.place letters f in
        (letters, some-inj (sym e ∙ ap code_of f), ok.0, ok.1)
  ]

  -- What Generate answers once a number of codes have been generated that are all in use.
  abbrev pub ComesAfter : ℕ → Option String → State → Type 0
  ComesAfter zero answer s = (generate source s).1 ≡ answer
  ComesAfter (suc n) answer s =
      (code : String) × ((generate source s).1 ≡ some code)
      × (exists code s ≡ true)
      × ComesAfter n answer (generate source s).0

  abbrev pub AreTaken : ℕ → State → Type 0
  AreTaken zero s = Unit
  AreTaken (suc n) s =
      (code : String) × ((generate source s).1 ≡ some code)
      × (exists code s ≡ true)
      × AreTaken n (generate source s).0

  module _ (base_url url : String) where
    -- The ends of Shorten with `n` attempts: an error of Generate or a free code after fewer than `n`
    -- codes in use, or `n` codes in use. After an error the store is as before; a new code of seven
    -- letters was free, has the url now, and no other code has changed.
    abbrev pub IsShortened : ℕ → State → Answer → Type 0
    IsShortened n s (after, inl generate_failed) =
        (after.data_of ≡ s.data_of) × (k : ℕ) × (k < n) × ComesAfter k none s
    IsShortened n s (after, inl no_unique_code) = (after.data_of ≡ s.data_of) × AreTaken n s
    IsShortened n s (after, inr r) =
        ((k : ℕ) × (k < n) × ComesAfter k (some r.code) s)
        × IsCode r.code
        × (r.short_url ≡ str_append base_url (str_append "/" r.code))
        × (get r.code s ≡ none)
        × (get r.code after ≡ some url)
        × ((code : String) → r.code ≢ code → get code after ≡ get code s)

    IsShortened-later :
        (n : ℕ) (s : State) (code : String) (a : Answer)
        → (generate source s).1 ≡ some code
        → exists code s ≡ true
        → IsShortened n (generate source s).0 a
        → IsShortened (suc n) s a
    unfolding generate get
    IsShortened-later n s code (after, inl generate_failed) e t (same, k, lt, h) =
        (same, suc k, omega (arith, lt), (code, e, t, h))
    IsShortened-later n s code (after, inl no_unique_code) e t h = (h.0, (code, e, t, h.1))
    IsShortened-later n s code (after, inr r) e t ((k, lt, h), c, l, free, self, others) =
        ((suc k, omega (arith, lt), (code, e, t, h)), c, l, free, self, others)

    exists-get : (code : String) (s : State) → exists code s ≡ false → get code s ≡ none
    unfolding exists
    exists-get code s h = elim (Option-cases (get code s)) [ inl e ↦ e | inr (u, e) ↦ ground arith ]

    shorten_in-IsShortened :
        (n : ℕ) (s : State) → IsShortened n s (shorten_in source base_url n url s)
    unfolding shorten_in attempt generate get save
    shorten_in-IsShortened zero s = (refl, tt)
    shorten_in-IsShortened (suc n) s = elim (Option-cases (generate source s).1) [
      | inl e ↦
          subst (λ o. IsShortened (suc n) s (attempt base_url url o after rest)) (sym e)
            (refl, 0, omega arith, e)
      | inr (code, e) ↦
          subst (λ o. IsShortened (suc n) s (attempt base_url url o after rest)) (sym e)
            (elim (Bool-cases (exists code after)) [
              | inl t ↦ rw t (IsShortened-later n s code rest e t (shorten_in-IsShortened n after))
              | inr t ↦ rw t (
                (0, omega arith, e),
                generate-IsCode s code e,
                refl,
                exists-get code after t,
                lookup-insert_self code url s.data_of,
                λ j ne. lookup-insert_ne code j url s.data_of ne,
              )
            ])
    ]
      where
        after : State
        after = (generate source s).0

        rest : Answer
        rest = shorten_in source base_url n url after

  module _ (base_url : String) where
    -- Shorten makes at most five codes of seven letters of the alphabet. It answers the first one that is
    -- free, which has the url then while no other code changes; or it leaves the store as it was, after
    -- an error of the source before that or after exactly five codes that are all in use.
    pub shorten-IsShortened :
        (url : String) (s : State) → IsShortened base_url url 5 s (shorten source base_url url s)
    unfolding shorten
    shorten-IsShortened url s = shorten_in-IsShortened base_url url 5 s

    IsShortened-kept :
        (url : String) (s : State) (a : Answer) (code old : String)
        → IsShortened base_url url 5 s a
        → get code s ≡ some old
        → get code a.0 ≡ some old
    unfolding get
    IsShortened-kept url s (after, inl generate_failed) code old h e = ap (lookup code) h.0 ∙ e
    IsShortened-kept url s (after, inl no_unique_code) code old h e = ap (lookup code) h.0 ∙ e
    IsShortened-kept url s (after, inr r) code old (count, c, l, free, self, others) e =
        others code (λ same. none-ne-some (sym free ∙ ap (λ k. get k s) same ∙ e)) ∙ e

    -- Calls of Shorten one after the other, each url with its answer.
    unfoldable pub run :
        List String → State → State × List (String × (ShortenError ⊎ ShortenResult))
    unfolding shorten
    run [] s = (s, [])
    run (url ∷ urls) s =
        let one = shorten source base_url url s in
        let rest = run urls one.0 in (rest.0, (url, one.1) ∷ rest.1)

    run-kept :
        (urls : List String) (s : State) (code old : String)
        → get code s ≡ some old
        → get code (run urls s).0 ≡ some old
    unfolding run
    run-kept [] s code old e = e
    run-kept (url ∷ urls) s code old e =
        let one = shorten source base_url url s in
        run-kept urls one.0 code old
          (IsShortened-kept url s one code old (shorten-IsShortened url s) e)

    -- The code of an answer has the url.
    abbrev pub IsFound : State → String × (ShortenError ⊎ ShortenResult) → Type 0
    IsFound s (url, inl e) = Unit
    IsFound s (url, inr r) = get r.code s ≡ some url

    IsShortened-IsFound :
        (url : String) (s : State) (a : Answer)
        → IsShortened base_url url 5 s a
        → (later : State)
        → ((code old : String) → get code a.0 ≡ some old → get code later ≡ some old)
        → IsFound later (url, a.1)
    IsShortened-IsFound url s (after, inl generate_failed) h later keeps = tt
    IsShortened-IsFound url s (after, inl no_unique_code) h later keeps = tt
    IsShortened-IsFound url s (after, inr r) (count, c, l, free, self, others) later keeps =
        keeps r.code url self

    -- After any number of calls of Shorten, one after the other, on any store and source, Lookup finds every
    -- url under the code that was answered for it: no later call writes a code over.
    pub run-AllFound :
        (urls : List String) (s : State) → All (IsFound (run urls s).0) (run urls s).1
    unfolding run
    run-AllFound [] s = tt
    run-AllFound (url ∷ urls) s =
        let one = shorten source base_url url s in
        (
          IsShortened-IsFound url s one (shorten-IsShortened url s) (run urls one.0).0
              (run-kept urls one.0),
          run-AllFound urls one.0,
        )
