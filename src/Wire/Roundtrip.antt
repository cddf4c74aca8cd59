-- ===== src/Wire/Roundtrip.antt =====
-- What a message is decoded to after it was encoded.
use aggregator.Base.{
  ℕ, zero, suc, ◌≤◌, ◌≡◌, refl, sym, ◌∙◌, List, [], ◌∷◌, ◌++◌, Option, none, some, length, take,
  arith, done, ℤ, Option-cases, inl, inr, dec_lt,
}
use mathlib.Core.List.{append_assoc, append-nil}
use aggregator.Common.{ReturnCode, CString}
use aggregator.Wire.{
  ◌>>=◌, Bytes, HgProc, StreamFetchOut, StreamFetchIn, put_list_streams_in, get_list_streams_in,
  put_stream_fetch_in, get_stream_fetch_in, put_ids, get_ids, put_head, get_head, put_members,
  encode_list_streams_out, decode_list_streams_out, put_stream_fetch_out, decode_stream_fetch_out,
  encode_stream_fetch_out,
}

-- A serialization that succeeds has succeeded in its first part.
bind-eq-some :
    {A B : Type 0} (o : Option A) (f : A → Option B) {b : B}
    → (o >>= f) ≡ some b
    → (a : A) × (o ≡ some a) × (f a ≡ some b)
bind-eq-some none f e = cc
bind-eq-some (some a) f e = (a, refl, e)

module _ ⦃P : HgProc⦄ where
  get_ids-put_ids :
      (n : ℕ) (ids : List ℕ) (bs rest : Bytes)
      → n ≤ length ids
      → put_ids n ids ≡ some bs
      → get_ids n (bs ++ rest) ≡ some (take n ids, rest)
  unfolding put_ids get_ids
  get_ids-put_ids zero ids bs rest h e = let empty : [] ≡ bs = cc in rw (← empty) refl
  get_ids-put_ids (suc n) [] bs rest h e = absurd (omega arith)
  get_ids-put_ids (suc n) (id ∷ ids) bs rest h e =
      let (first, put_first, e') = bind-eq-some (P.stream_id.put id) _ e in
      let (more, put_more, e'') = bind-eq-some (put_ids n ids) _ e' in
      let whole : first ++ more ≡ bs = cc in
      rw (← whole) (
        rw (append_assoc first more rest) (
          rw (P.stream_id.get-put id first (more ++ rest) put_first)
            (rw (get_ids-put_ids n ids more rest (omega arith) put_more) refl)))

  get_head-put_head :
      (ret : ReturnCode) (n : ℕ) (head rest : Bytes)
      → put_head ret n ≡ some head
      → get_head (head ++ rest) ≡ some (ret, n, rest)
  unfolding put_head get_head
  get_head-put_head ret n head rest e =
      let (r, put_r, e') = bind-eq-some (P.int32.put ret) _ e in
      let (c, put_c, e'') = bind-eq-some (P.size.put n) _ e' in
      let whole : r ++ c ≡ head = cc in
      rw (← whole) (
        rw (append_assoc r c rest)
          (rw (P.int32.get-put ret r (c ++ rest) put_r) (rw (P.size.get-put n c rest put_c) refl)))

  pub decode-put_members :
      (ret : ReturnCode) (n : ℕ) (ids : List ℕ) (bs : Bytes)
      → n ≤ length ids
      → put_members ret n (some ids) ≡ some bs
      → decode_list_streams_out bs
        ≡ some (record { ret = ret; count = some n; ids = some (take n ids) })
  unfolding put_members decode_list_streams_out
  decode-put_members ret n ids bs h e =
      let (head, put_h, e') = bind-eq-some (put_head ret n) _ e in
      let (tail, put_t, e'') = bind-eq-some (put_ids n ids) _ e' in
      let whole : head ++ (tail ++ []) ≡ bs = rw (append-nil tail) cc in
      rw (← whole) (
        rw (get_head-put_head ret n head (tail ++ []) put_h)
          (rw (get_ids-put_ids n ids tail [] h put_t) refl))

  list_streams_out-roundtrip :
      {S : Type 0} (ret : ReturnCode) (n : ℕ) (ids : List ℕ) (bs : Bytes) (s t : S)
      → encode_list_streams_out (record { ret = ret; count = some n; ids = some ids }) s
        ≡ done (some bs) t
      → decode_list_streams_out bs
        ≡ some (record { ret = ret; count = some n; ids = some (take n ids) })
  unfolding encode_list_streams_out
  list_streams_out-roundtrip ret n ids bs s t e = elim (dec_lt (length ids) n) [
    | yes short ↦ absurd (ground arith)
    | no long ↦ decode-put_members ret n ids bs (omega arith) (ground arith)
  ]

  pub decode-put_stream_fetch_out :
      (n : ℤ) (name ns : CString) (ret : ReturnCode) (bs : Bytes)
      → put_stream_fetch_out n name ns ret ≡ some bs
      → decode_stream_fetch_out bs
        ≡ some (record { actual_count = some n; name = some name; ns = some ns; ret = ret })
  unfolding put_stream_fetch_out decode_stream_fetch_out
  decode-put_stream_fetch_out n name ns ret bs e =
      let (a, put_a, e₁) = bind-eq-some (P.int64.put n) _ e in
      let (b, put_b, e₂) = bind-eq-some (P.string.put name) _ e₁ in
      let (c, put_c, e₃) = bind-eq-some (P.string.put ns) _ e₂ in
      let (d, put_d, e₄) = bind-eq-some (P.int32.put ret) _ e₃ in
      let whole : a ++ b ++ c ++ d ≡ bs = cc in
      let spread : a ++ (b ++ (c ++ (d ++ []))) ≡ bs = rw (append-nil d) (
        rw (← append_assoc b c d)
          (rw (← append_assoc a (b ++ c) d) (rw (← append_assoc a b c) whole))) in
      rw (← spread) (
        rw (P.int64.get-put n a (b ++ (c ++ (d ++ []))) put_a) (
          rw (P.string.get-put name b (c ++ (d ++ [])) put_b) (
            rw (P.string.get-put ns c (d ++ []) put_c) (rw (P.int32.get-put ret d [] put_d) refl))))

  stream_fetch_out-roundtrip :
      {S : Type 0} (out : StreamFetchOut) (bs : Bytes) (s t : S)
      → encode_stream_fetch_out out s ≡ done (some bs) t
      → decode_stream_fetch_out bs ≡ some out
  unfolding encode_stream_fetch_out
  stream_fetch_out-roundtrip out bs s t e = elim (Option-cases out.actual_count) [
    | inl unset ↦ absurd (ground arith)
    | inr (k, c) ↦ elim (Option-cases out.name) [
      | inl unset ↦ absurd (ground arith)
      | inr (name, a) ↦ elim (Option-cases out.ns) [
        | inl unset ↦ absurd (ground arith)
        | inr (ns, b) ↦ decode-put_stream_fetch_out k name ns out.ret bs (ground arith) ∙ (λ i.
            some (record { actual_count = sym c i; name = sym a i; ns = sym b i; ret = out.ret }))
      ]
    ]
  ]

  pub get-put_list_streams_in :
      (max_ids : ℕ) (bs : Bytes)
      → put_list_streams_in max_ids ≡ some bs
      → get_list_streams_in bs ≡ some max_ids
  unfolding put_list_streams_in get_list_streams_in
  get-put_list_streams_in max_ids bs e =
      rw (← append-nil bs) (rw (P.size.get-put max_ids bs [] e) refl)

  pub get-put_stream_fetch_in :
      (request : StreamFetchIn) (bs : Bytes)
      → put_stream_fetch_in request ≡ some bs
      → get_stream_fetch_in bs ≡ some request
  unfolding put_stream_fetch_in get_stream_fetch_in
  get-put_stream_fetch_in request bs e =
      let (id, put_id, e₁) = bind-eq-some (P.stream_id.put request.stream_id) _ e in
      let (n, put_n, e₂) = bind-eq-some (P.int64.put request.count) _ e₁ in
      let (b, put_b, e₃) = bind-eq-some (P.bulk.put request.bulk) _ e₂ in
      let whole : id ++ n ++ b ≡ bs = cc in
      let spread : id ++ (n ++ (b ++ [])) ≡ bs =
        rw (append-nil b) (rw (← append_assoc id n b) whole) in
      rw (← spread) (
        rw (P.stream_id.get-put request.stream_id id (n ++ (b ++ [])) put_id) (
          rw (P.int64.get-put request.count n (b ++ []) put_n)
            (rw (P.bulk.get-put request.bulk b [] put_b) refl)))

  -- Every message is decoded to what was encoded: the number of streams that a client has room for; the
  -- stream, the number of samples and the memory of a fetch; a list of streams to the same return code and
  -- count and to the first `count` identifiers of the array; and a fetched answer to itself.
  pub messages-roundtrip :
      {S : Type 0} (max_ids : ℕ) (request : StreamFetchIn) (ret : ReturnCode) (n : ℕ) (ids : List ℕ)
      (out : StreamFetchOut) (asked fetched listed answered : Bytes) (s t u v : S)
      → put_list_streams_in max_ids ≡ some asked
      → put_stream_fetch_in request ≡ some fetched
      → encode_list_streams_out (record { ret = ret; count = some n; ids = some ids }) s
        ≡ done (some listed) t
      → encode_stream_fetch_out out u ≡ done (some answered) v
      → (get_list_streams_in asked ≡ some max_ids)
        × (get_stream_fetch_in fetched ≡ some request)
        × (decode_list_streams_out listed
            ≡ some (record { ret = ret; count = some n; ids = some (take n ids) }))
        × (decode_stream_fetch_out answered ≡ some out)
  messages-roundtrip max_ids request ret n ids out asked fetched listed answered s t u v e₁ e₂ e₃
        e₄ =
      (
        get-put_list_streams_in max_ids asked e₁,
        get-put_stream_fetch_in request fetched e₂,
        list_streams_out-roundtrip ret n ids listed s t e₃,
        stream_fetch_out-roundtrip out answered u v e₄,
      )
