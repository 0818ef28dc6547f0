-- ===== src/Session/Index.antt =====
-- The index of I/O tensors by name (`io_tensor_index`).
use tensorrt_rs.Prelude.{
  ℕ, zero, suc, ◌+◌, ◌≡◌, sym, ap, ◌∙◌, String, List, [], ◌∷◌, none, some, get_elem?, arith, ok,
  err, Bool-cases, inl, inr, ◌⊎◌, ◌==◌, ==_iff, string_eq, Option-cases, ◌≢◌,
}
use tensorrt_rs.Prelude.Maps.{lookup, insert, lookup-insert}
use tensorrt_rs.Errors.{invalid_shape, not_engine_tensor}
use tensorrt_rs.Tensor.{TensorInfo}
use tensorrt_rs.Session.Lookup.{index_from, index_tensors, tensor_info}

-- Every entry of the index leads to a tensor of its name.
abbrev pub Points : List TensorInfo → List (String × ℕ) → Type 0
Points ts m =
    (n : String) (i : ℕ)
    → lookup n m ≡ some i
    → (t : TensorInfo) × (get_elem? ts i ≡ some t) × (t.name ≡ n)

-- `ts` is what stands from position `i` on.
abbrev Rest : List TensorInfo → ℕ → List TensorInfo → Type 0
Rest all i ts = (k : ℕ) → get_elem? all (i + k) ≡ get_elem? ts k

module _ (all : List TensorInfo) where
  tail_Rest :
      (i : ℕ) (t : TensorInfo) (ts : List TensorInfo) → Rest all i (t ∷ ts) → Rest all (suc i) ts
  tail_Rest i t ts r k = ap (get_elem? all) (omega arith) ∙ r (suc k)

  insert-Points :
      (i : ℕ) (t : TensorInfo) (m : List (String × ℕ))
      → get_elem? all i ≡ some t
      → Points all m
      → Points all (insert t.name i m)
  insert-Points i t m here p n j h = elim (Bool-cases (t.name == n)) [
    | inl e ↦
        let same : i ≡ j = ground (arith, lookup-insert t.name n i m) in
        (t, ap (get_elem? all) (sym same) ∙ here, (==_iff t.name n).0 e)
    | inr e ↦ p n j (ground (arith, lookup-insert t.name n i m))
  ]

  index_from-Points :
      (i : ℕ) (ts : List TensorInfo) (m : List (String × ℕ))
      → Rest all i ts
      → Points all m
      → Points all (index_from i ts m)
  unfolding index_from
  index_from-Points i [] m r p = p
  index_from-Points i (t ∷ ts) m r p =
      index_from-Points (suc i) ts (insert t.name i m) (tail_Rest i t ts r)
        (insert-Points i t m (ap (get_elem? all) (omega arith) ∙ r 0) p)

-- In the index of a list of tensors every entry leads to a tensor of its name.
index_tensors-Points :
    (ts : List TensorInfo) → Points (index_tensors ts).io_tensors (index_tensors ts).io_tensor_index
unfolding index_tensors lookup
index_tensors-Points ts =
    index_from-Points ts 0 ts [] (λ k. ap (get_elem? ts) (omega arith)) (λ n i h. absurd (cc))

-- An entry stays, though perhaps at another position.
index_from_keeps :
    (i : ℕ) (ts : List TensorInfo) (m : List (String × ℕ)) (n : String)
    → lookup n m ≢ none
    → lookup n (index_from i ts m) ≢ none
unfolding index_from
index_from_keeps i [] m n h = h
index_from_keeps i (t ∷ ts) m n h =
    index_from_keeps (suc i) ts (insert t.name i m) n (ground (arith, lookup-insert t.name n i m))

index_from_complete :
    (i : ℕ) (ts : List TensorInfo) (m : List (String × ℕ)) (k : ℕ) {t : TensorInfo}
    → get_elem? ts k ≡ some t
    → lookup t.name (index_from i ts m) ≢ none
unfolding index_from
index_from_complete i [] m k h = absurd (cc)
index_from_complete i (u ∷ ts) m zero {t = t} h =
    index_from_keeps (suc i) ts (insert u.name i m) t.name
      (ground (arith, lookup-insert u.name t.name i m))
index_from_complete i (u ∷ ts) m (suc k) h = index_from_complete (suc i) ts (insert u.name i m) k h

-- In a session over a list of tensors, a name gives the information of a tensor of that name, or
-- is refused as no engine tensor; the access to the list never panics.
pub tensor_info-index_tensors :
    (ts : List TensorInfo) (n : String)
    → ((t : TensorInfo) × (tensor_info (index_tensors ts) n ≡ ok t) × (t.name ≡ n))
      ⊎ (tensor_info (index_tensors ts) n ≡ err (invalid_shape n not_engine_tensor))
unfolding tensor_info
tensor_info-index_tensors ts n = elim (Option-cases (lookup n (index_tensors ts).io_tensor_index)) [
  | inl e ↦ inr (rw e)
  | inr (i, e) ↦
      let (t, here, named) = index_tensors-Points ts n i e in inl (t, rw (e, here), named)
]

-- For every tensor of the list a tensor of its name is found.
pub tensor_info_complete :
    (ts : List TensorInfo) (k : ℕ) {t : TensorInfo}
    → get_elem? ts k ≡ some t
    → (u : TensorInfo) × (tensor_info (index_tensors ts) t.name ≡ ok u) × (u.name ≡ t.name)
unfolding tensor_info index_tensors
tensor_info_complete ts k {t = t} h =
    elim (Option-cases (lookup t.name (index_tensors ts).io_tensor_index)) [
      | inl e ↦ absurd (index_from_complete 0 ts [] k h e)
      | inr (i, e) ↦
          let (u, here, named) = index_tensors-Points ts t.name i e in (u, rw (e, here), named)
    ]
