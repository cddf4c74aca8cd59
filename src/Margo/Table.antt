-- ===== src/Margo/Table.antt =====
-- A registry that keeps the promises: functions from names to identifiers, and from these to data.
use aggregator.Base.{
  ℕ, suc, ◌≡◌, ◌≢◌, refl, Bool, true, false, ◌&&◌, Option, none, some, ◌==◌, if◌then◌else◌, arith,
}
use aggregator.Memory.{update, update_self}
use aggregator.Margo.{Margo, Rpc, remote_stream_fetch, remote_list_streams}

pub record Registry : Type 0 where
  pub listening : Bool
  pub ids : Rpc → Option ℕ → Option ℕ
  pub data_of : ℕ → Option ℕ
  pub next : ℕ

abbrev pub same_rpc : Rpc → Rpc → Bool
same_rpc remote_stream_fetch remote_stream_fetch = true
same_rpc remote_list_streams remote_list_streams = true
same_rpc remote_stream_fetch remote_list_streams = false
same_rpc remote_list_streams remote_stream_fetch = false

abbrev pub same_key : Option ℕ → Option ℕ → Bool
same_key none none = true
same_key (some k) (some j) = k == j
same_key none (some j) = false
same_key (some k) none = false

abbrev pub without : ℕ → Option ℕ → Option ℕ
without id none = none
without id (some j) = if j == id then none else some j

same_rpc_self : (n : Rpc) → same_rpc n n ≡ true
same_rpc_self remote_stream_fetch = refl
same_rpc_self remote_list_streams = refl

same_key_self : (k : Option ℕ) → same_key k k ≡ true
same_key_self none = refl
same_key_self (some k) = ground arith

same_rpc_other : (n m : Rpc) → n ≢ m → same_rpc n m ≡ false
same_rpc_other remote_stream_fetch remote_stream_fetch d = absurd (d refl)
same_rpc_other remote_list_streams remote_list_streams d = absurd (d refl)
same_rpc_other remote_stream_fetch remote_list_streams d = refl
same_rpc_other remote_list_streams remote_stream_fetch d = refl

pub without_self : (id : ℕ) (o : Option ℕ) → o ≡ some id → without id o ≡ none
without_self id none e = refl
without_self id (some j) e = ground arith

pub without_other :
    (id other : ℕ) (o : Option ℕ) → o ≡ some other → id ≢ other → without id o ≡ some other
without_other id other none e d = cc
without_other id other (some j) e d = ground arith

pub without-none : (id : ℕ) (o : Option ℕ) → o ≡ none → without id o ≡ none
without-none id none e = refl
without-none id (some j) e = cc

abbrev pub put_id : (Rpc → Option ℕ → Option ℕ) → Rpc → Option ℕ → ℕ → Rpc → Option ℕ → Option ℕ
put_id ids n k id m j = if same_rpc n m && same_key k j then some id else ids m j

pub put_id_self :
    (ids : Rpc → Option ℕ → Option ℕ) (n : Rpc) (k : Option ℕ) (id : ℕ)
    → put_id ids n k id n k ≡ some id
put_id_self ids n k id = rw (same_rpc_self n) (rw (same_key_self k) refl)

pub put_id_other :
    (ids : Rpc → Option ℕ → Option ℕ) (n m : Rpc) (k j : Option ℕ) (id : ℕ)
    → n ≢ m
    → put_id ids n k id m j ≡ ids m j
put_id_other ids n m k j id d = rw (same_rpc_other n m d) refl

pub put_data_other :
    (f : ℕ → Option ℕ) (id other p : ℕ) → f other ≡ some p → update f id (some p) other ≡ some p
put_data_other f id other p e = ground arith

abbrev pub registry : Margo
registry = record {
  Instance = Registry;
  listening = λ i. i.listening;
  registered = λ i n k. i.ids n k;
  register = λ i n k. (i.next, record i { ids = put_id i.ids n k i.next; next = suc i.next });
  set_data = λ i id p. record i { data_of = update i.data_of id (some p) };
  data_of = λ i id. i.data_of id;
  deregister = λ i id. record i { ids = λ n k. without id (i.ids n k) };
  push_callback = λ i p. i;
  pop_callback = λ i p. i;
  registered-register = λ i n k. put_id_self i.ids n k i.next;
  registered-register_other = λ i n m k j d. put_id_other i.ids n m k j i.next d;
  data_of-register = λ i n k id p e. e;
  registered-set_data = λ i id p n k. refl;
  data_of-set_data = λ i id p. update_self i.data_of id (some p);
  data_of-set_data_other = λ i id other p e. put_data_other i.data_of id other p e;
  registered-deregister = λ i id n k e. without_self id (i.ids n k) e;
  registered-deregister_other = λ i id other n k e d. without_other id other (i.ids n k) e d;
  registered-deregister_none = λ i id n k e. without-none id (i.ids n k) e;
  registered-push_callback = λ i p n k. refl;
  data_of-push_callback = λ i p id. refl;
  registered-pop_callback = λ i p n k. refl;
}
