-- ===== src/Client/Handles/Counts.antt =====
-- The counts of a client and of its handles.
use aggregator.Base.{
  ℕ, suc, ◌+◌, ◌-◌, ◌^◌, ◌≤◌, ◌<◌, ◌≡◌, ◌≢◌, ◌⊎◌, inl, inr, ℕ_discrete, refl, sym, ap, ◌∙◌, List,
  [], ◌∷◌, Option, some, arith, u64, true, false, ◌==◌, if◌then◌else◌,
}
use aggregator.Memory.{update, update_self, update_ne}
use aggregator.Client.Handles.{Client, Handle, Store, lookup_handle, set_handle, drop_handle}

-- The number of handles that a client has.
abbrev pub held : ℕ → List (ℕ × Handle) → ℕ
held c [] = 0
held c ((p, h) ∷ hs) = (if h.client == c then 1 else 0) + held c hs

-- Every handle has a reference and at most n of them, and its address was handed out.
abbrev pub Live : ℕ → ℕ → List (ℕ × Handle) → Type 0
Live f n [] = Unit {0}
Live f n ((p, h) ∷ hs) = ((1 ≤ p) × (p < f) × (1 ≤ h.refcount) × (h.refcount ≤ n)) × Live f n hs

-- Every client counts its handles.
pub record IsCounted (n : ℕ) (st : Store) : Type 0 where
  pub counted :
      (c : ℕ) (cl : Client)
      → st.clients c ≡ some cl
      → cl.num_stream_handles ≡ u64 (held c st.handles)
  pub live : Live st.fresh n st.handles
  pub started : 1 ≤ st.fresh

pub held-set :
    (c p : ℕ) (h g : Handle) (hs : List (ℕ × Handle))
    → lookup_handle p hs ≡ some h
    → g.client ≡ h.client
    → held c (set_handle p g hs) ≡ held c hs
held-set c p h g [] e f = cc
held-set c p h g ((q, k) ∷ hs) e f = ground (arith, held-set c p h g hs)

held-drop :
    (c p : ℕ) (h : Handle) (hs : List (ℕ × Handle))
    → lookup_handle p hs ≡ some h
    → held c hs ≡ held c (drop_handle p hs) + (if h.client == c then 1 else 0)
held-drop c p h [] e = cc
held-drop c p h ((q, k) ∷ hs) e = ground (arith, held-drop c p h hs)

pub Live-set :
    (f n p : ℕ) (g : Handle) (hs : List (ℕ × Handle))
    → 1 ≤ g.refcount
    → g.refcount ≤ n
    → Live f n hs
    → Live f n (set_handle p g hs)
Live-set f n p g [] low high a = tt
Live-set f n p g ((q, k) ∷ hs) low high a =
    elim (q == p) as (λ b. Live f n (if b then (q, g) ∷ hs else (q, k) ∷ set_handle p g hs)) [
      | true ↦ ((a.0.0, a.0.1, low, high), a.1)
      | false ↦ (a.0, Live-set f n p g hs low high a.1)
    ]

pub Live-drop : (f n p : ℕ) (hs : List (ℕ × Handle)) → Live f n hs → Live f n (drop_handle p hs)
Live-drop f n p [] a = tt
Live-drop f n p ((q, k) ∷ hs) a =
    elim (q == p) as (λ b. Live f n (if b then hs else (q, k) ∷ drop_handle p hs)) [
      | true ↦ a.1
      | false ↦ (a.0, Live-drop f n p hs a.1)
    ]

pub Live-later : (f g n m : ℕ) (hs : List (ℕ × Handle)) → f ≤ g → n ≤ m → Live f n hs → Live g m hs
Live-later f g n m [] le le' a = tt
Live-later f g n m ((q, k) ∷ hs) le le' a =
    ((a.0.0, omega arith, a.0.2, omega arith), Live-later f g n m hs le le' a.1)

pub Live-lookup :
    (f n p : ℕ) (h : Handle) (hs : List (ℕ × Handle))
    → Live f n hs
    → lookup_handle p hs ≡ some h
    → (1 ≤ p) × (p < f) × (1 ≤ h.refcount) × (h.refcount ≤ n)
Live-lookup f n p h [] a e = cc
Live-lookup f n p h ((q, k) ∷ hs) a e = ground (arith, Live-lookup f n p h hs a.1)

pub drop-set :
    (p : ℕ) (g : Handle) (hs : List (ℕ × Handle))
    → drop_handle p (set_handle p g hs) ≡ drop_handle p hs
drop-set p g [] = refl
drop-set p g ((q, k) ∷ hs) = ground (arith, drop-set p g hs)

-- What stands at an address where a client was stored.
client_cases :
    (f : ℕ → Option Client) (c d : ℕ) (cl dl : Client)
    → update f c (some cl) d ≡ some dl
    → ((c ≡ d) × (cl ≡ dl)) ⊎ ((c ≢ d) × (f d ≡ some dl))
client_cases f c d cl dl e = elim (ℕ_discrete c d) [
  | yes same ↦
      let there : some cl ≡ some dl =
        sym (update_self f c (some cl)) ∙ ap (update f c (some cl)) same ∙ e in
      inl (same, cc)
  | no n ↦ inr (n, sym (update_ne f c (some cl) d n) ∙ e)
]

abbrev pub created : Store → ℕ → Client → Handle → Store
created st c cl h = record {
  clients =
      update st.clients c
        (some (record cl { num_stream_handles = u64 (cl.num_stream_handles + 1) }));
  handles = (st.fresh, h) ∷ st.handles;
  fresh = suc st.fresh;
}

pub created-counted :
    (n : ℕ) (st : Store) (c : ℕ) (cl : Client) (h : Handle)
    → IsCounted n st
    → st.clients c ≡ some cl
    → h.client ≡ c
    → (d : ℕ) (dl : Client) → (created st c cl h).clients d ≡ some dl
    → dl.num_stream_handles ≡ u64 (held d ((st.fresh, h) ∷ st.handles))
created-counted n st c cl h v e own d dl f = elim (client_cases st.clients c d _ dl f) [
  | inl (same, equal) ↦
      ap (λ (x : Client). x.num_stream_handles) (sym equal)
      ∙ ground (arith, v.counted c cl e, same, own)
  | inr (apart, there) ↦ ground (arith, v.counted d dl there, own)
]

-- The store with one reference less, where another one is left.
abbrev pub given_up : Store → ℕ → Handle → Store
given_up st p h = record st {
  handles = set_handle p (record h { refcount = u64 (h.refcount + 2 ^ 64 - 1) }) st.handles;
}

-- The store without the handle.
abbrev pub freed : Store → ℕ → Handle → Client → Store
freed st p h cl = record st {
  clients =
      update st.clients h.client
        (some (record cl { num_stream_handles = u64 (cl.num_stream_handles + 2 ^ 64 - 1) }));
  handles = drop_handle p st.handles;
}

pub freed-counted :
    (n : ℕ) (st : Store) (p : ℕ) (h : Handle) (cl : Client)
    → IsCounted n st
    → lookup_handle p st.handles ≡ some h
    → st.clients h.client ≡ some cl
    → (d : ℕ) (dl : Client) → (freed st p h cl).clients d ≡ some dl
    → dl.num_stream_handles ≡ u64 (held d (drop_handle p st.handles))
freed-counted n st p h cl v found e d dl f = elim (client_cases st.clients h.client d _ dl f) [
  | inl (same, equal) ↦
      ap (λ (x : Client). x.num_stream_handles) (sym equal)
      ∙ ground (arith, v.counted h.client cl e, same, held-drop d p h st.handles found)
  | inr (apart, there) ↦ ground (arith, v.counted d dl there, held-drop d p h st.handles found)
]
