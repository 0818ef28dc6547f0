-- ===== src/Session/Select.antt =====
-- tensorrt/src/session/select.rs
use tensorrt_rs.Prelude.{
  String, List, [], ◌∷◌, Result, ok, ok_or, find, is_empty, if◌then◌else◌, ◌==◌, string_eq, try_map,
  ◌≡◌, AllPairs, All, IsOk, Result-cases, inl, inr, none, err, ◌++◌, try_map-AllPairs, arith, some,
}
use tensorrt_rs.Errors.{Error, invalid_shape, output_not_inferred}
use tensorrt_rs.Tensor.{TensorInfo}

unfoldable pub find_output : List TensorInfo → String → Result Error TensorInfo
find_output infos name =
    ok_or (find (λ t. t.name == name) infos) (invalid_shape name output_not_inferred)

unfoldable pub select_outputs : List TensorInfo → List String → Result Error (List TensorInfo)
unfolding find_output try_map
select_outputs infos names = if is_empty names then ok infos else try_map (find_output infos) names

-- What `name` selects: the first tensor of that name.
abbrev pub Selected : List TensorInfo → String → TensorInfo → Type 0
Selected infos name t = (find (λ t. t.name == name) infos ≡ some t) × (t.name ≡ name)

find_named :
    (infos : List TensorInfo) (name : String) (t : TensorInfo)
    → find (λ u. u.name == name) infos ≡ some t
    → t.name ≡ name
find_named [] name t h = absurd (cc)
find_named (u ∷ us) name t h = ground (arith, find_named us name t)

find_output-ok :
    (infos : List TensorInfo) (name : String) {t : TensorInfo}
    → find_output infos name ≡ ok t
    → Selected infos name t
unfolding find_output
find_output-ok infos name {t = t} h =
    let e : find (λ u. u.name == name) infos ≡ some t = ground arith in
    (e, find_named infos name t e)

AllPairs-map :
    (infos : List TensorInfo) (names : List String) (ts : List TensorInfo)
    → AllPairs (λ n t. find_output infos n ≡ ok t) names ts
    → AllPairs (Selected infos) names ts
AllPairs-map infos [] [] h = tt
AllPairs-map infos [] (t ∷ ts) h = h
AllPairs-map infos (n ∷ ns) [] h = h
AllPairs-map infos (n ∷ ns) (t ∷ ts) h = (find_output-ok infos n h.0, AllPairs-map infos ns ts h.1)

-- The outputs that are returned are the ones that were asked for, in the order of the names: at
-- each position stands the first inferred output of that name.
pub select_outputs-ok :
    (infos : List TensorInfo) (name : String) (names : List String) {ts : List TensorInfo}
    → select_outputs infos (name ∷ names) ≡ ok ts
    → AllPairs (Selected infos) (name ∷ names) ts
unfolding select_outputs
select_outputs-ok infos name names {ts = ts} h =
    AllPairs-map infos (name ∷ names) ts (try_map-AllPairs (find_output infos) (name ∷ names) ts h)

try_map_missing :
    (infos : List TensorInfo) (found : List String) (name : String) (rest : List String)
    → All (λ n. IsOk (find_output infos n)) found
    → find (λ t. t.name == name) infos ≡ none
    → try_map (find_output infos) (found ++ name ∷ rest)
      ≡ err (invalid_shape name output_not_inferred)
unfolding try_map find_output
try_map_missing infos [] name rest h e = ground arith
try_map_missing infos (n ∷ ns) name rest h e = elim (Result-cases (find_output infos n)) [
  | inl (t, found) ↦ rw (found, try_map_missing infos ns name rest h.1 e)
  | inr (bad, failed) ↦ absurd (ground arith)
]

-- Of the names that are asked for, the first that no inferred output has is reported.
pub select_outputs_missing :
    (infos : List TensorInfo) (found : List String) (name : String) (rest : List String)
    → All (λ n. IsOk (find_output infos n)) found
    → find (λ t. t.name == name) infos ≡ none
    → select_outputs infos (found ++ name ∷ rest) ≡ err (invalid_shape name output_not_inferred)
unfolding select_outputs
select_outputs_missing infos [] name rest h e = try_map_missing infos [] name rest h e
select_outputs_missing infos (n ∷ ns) name rest h e = try_map_missing infos (n ∷ ns) name rest h e
