-- ===== src/KeyValue/Samples.antt =====
-- A run of the sharded store.
use faisalaffan_design_syste.Base.{
  ◌≡◌, none, some, List, [], ◌∷◌, nat_key, string_key, lookup, insert, remove,
}
use faisalaffan_design_syste.KeyValue.{new_manager}
use faisalaffan_design_syste.KeyValue.Refine.{Request, read, store, drop_key, serve, serve_refines}

abbrev requests : List Request
requests = store "a" "1" ∷ store "b" "2" ∷ drop_key "a" ∷ read "a" ∷ read "b" ∷ []

serve_refines_example :
    serve (λ s. 7) (λ n. "r") requests (new_manager (λ s. 7) (λ n. "r") ("n1" ∷ "n2" ∷ []))
    ≡ some (none ∷ some "2" ∷ [])
unfolding insert lookup remove
serve_refines_example = serve_refines (λ s. 7) (λ n. "r") "n1" ("n2" ∷ []) requests
