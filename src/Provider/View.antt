-- ===== src/Provider/View.antt =====
-- The registry of src/provider.c as its callers see it, without buffers, chains and counts: what
-- stands at each address, the table as a list of identifiers with addresses, and what each call
-- of the application should do to them.
pub mod Logs
pub mod Streams
pub mod Steps
pub mod Tags
pub mod Calls
use aggregator.Base.{
  ℕ, suc, ◌+◌, ◌≡◌, Bool, true, false, ◌||◌, ◌&&◌, not, List, [], ◌∷◌, ◌++◌, Option, none, some,
  length, take, ltb, leb, ◌==◌, if◌then◌else◌,
}
use mathlib.Core.Option
use aggregator.Common.{
  StreamType, counter, timer, gauge, Sample, CString, TagList, stream_buffer_size,
}
use aggregator.Common.Hash.{id_from_string_identifiers}
use aggregator.Double.{Double}
use aggregator.Memory.{Stream, Heap, update}
use aggregator.Stream.History.{history}
use aggregator.Stream.Update.{accepts, logged}
use aggregator.Stream.Gauge.{gauge_logged}
use aggregator.Uthash.{Uthash, Item, lookup}
use aggregator.Provider.{World}
use aggregator.Provider.Create.{fits, desc_of}
use aggregator.Provider.Validity.Calls.{
  Operation, creates, destroys, destroys_all, updates, adjusts, makes_tags, drops_tags,
}

-- A stream with the samples that it has recorded, the newest first.
pub record Record : Type 0 where
  pub type : StreamType
  pub id : ℕ
  pub name : CString
  pub ns : CString
  pub desc : CString
  pub samples : List Sample

-- What stands at each address, the items of the table, oldest first, and the next address.
pub record View : Type 0 where
  pub records : ℕ → Option Record
  pub items : List Item
  pub tags : ℕ → Option TagList
  pub next : ℕ

abbrev pub record_of : Stream → List Sample → Record
record_of s xs = record {
  type = s.type;
  id = s.id;
  name = s.name;
  ns = s.ns;
  desc = s.desc;
  samples = xs;
}

abbrev pub seen : Heap → Option Stream → Option Record
seen h none = none
seen h (some s) = Option.map (λ buf. record_of s (history buf s.buffer_index)) (h.buffers s.buffer)

module _ ⦃H : Uthash⦄ where
  abbrev pub view : World → View
  view w = record {
    records = λ p. seen w.heap (w.heap.streams p);
    items = H.items w.provider.streams;
    tags = w.heap.taglists;
    next = w.heap.fresh;
  }

-- A change of the samples at one address.
abbrev pub resampled : (StreamType → List Sample → List Sample) → Option Record → Option Record
resampled f none = none
resampled f (some r) = some (record r { samples = f r.type r.samples })

abbrev pub at_address : View → ℕ → (StreamType → List Sample → List Sample) → View
at_address v m f = record v { records = update v.records m (resampled f (v.records m)) }

abbrev pub is_item : ℕ → List Item → Bool
is_item p [] = false
is_item p ((k, q) ∷ items) = (q == p) || is_item p items

abbrev pub enlisted : List Item → ℕ → ℕ → List Item
enlisted items id p = elim (lookup id items) [ none ↦ items ++ (id, p) ∷ [] | some q ↦ items ]

-- The view with a new stream under an identifier, and its buffer.
abbrev pub with_record : View → Record → View
with_record v r = record {
  records = update v.records v.next (some r);
  items = enlisted v.items r.id v.next;
  tags = v.tags;
  next = suc (suc v.next);
}

-- The identifier that names and a tag list give, where the tag list is there and long enough.
abbrev pub given_id : View → CString → CString → ℕ → Option ℕ
given_id v ns name tl = elim (v.tags tl) [
  | none ↦ none
  | some tags ↦ id_from_string_identifiers ns name tags.taglist tags.num_tags
]

abbrev pub all_fit : List CString → Bool
all_fit [] = true
all_fit (str ∷ strs) = ltb (length str) 288 && all_fit strs

abbrev pub is_none : Option ℕ → Bool
is_none none = true
is_none (some q) = false

abbrev pub may_drop : Option TagList → Bool
may_drop none = false
may_drop (some tags) = leb tags.num_tags (length tags.taglist)

-- A stream is sought by its identifier.
abbrev pub is_unlisted : View → Option Record → Bool
is_unlisted v none = false
is_unlisted v (some r) = is_none (lookup r.id v.items)

abbrev pub has_room : (StreamType → List Sample → Bool) → Option Record → Bool
has_room refused none = false
has_room refused (some r) = refused r.type r.samples || ltb (length r.samples) stream_buffer_size

abbrev pub is_no_gauge : StreamType → Bool
is_no_gauge counter = true
is_no_gauge timer = true
is_no_gauge gauge = false

module _ ⦃F : Double⦄ where
  -- What a call should do.
  unfoldable pub expected : Operation → View → View
  expected (creates none name t desc tl) v = v
  expected (creates (some ns) none t desc tl) v = v
  expected (creates (some ns) (some name) t desc tl) v = elim (given_id v ns name tl) [
    | none ↦ v
    | some id ↦
        with_record v
          (record { type = t; id = id; name = name; ns = ns; desc = desc_of desc; samples = [] })
  ]
  expected (destroys m) v = v
  expected destroys_all v = record v {
    records = λ p. if is_item p v.items then none else v.records p;
    items = [];
  }
  expected (updates m x) v = at_address v m (λ t xs. (logged t xs x).1)
  expected (adjusts m x) v = at_address v m (λ t xs. (gauge_logged t xs x).1)
  expected (makes_tags n args) v = record v {
    tags = update v.tags v.next (some (record { taglist = take n args; num_tags = n }));
    next = suc v.next;
  }
  expected (drops_tags tl) v = record v { tags = update v.tags tl none }

  -- The calls that have no undefined behaviour.
  unfoldable pub allowed : Operation → View → Bool
  allowed (creates none name t desc tl) v = true
  allowed (creates (some ns) none t desc tl) v = true
  allowed (creates (some ns) (some name) t desc tl) v = elim (given_id v ns name tl) [
    | none ↦ false
    | some id ↦ fits ns name desc
  ]
  allowed (destroys m) v = is_unlisted v (v.records m)
  allowed destroys_all v = true
  allowed (updates m x) v = has_room (λ t xs. not (accepts t xs x.val)) (v.records m)
  allowed (adjusts m x) v = has_room (λ t xs. is_no_gauge t) (v.records m)
  allowed (makes_tags n args) v = leb n (length args) && all_fit (take n args)
  allowed (drops_tags tl) v = may_drop (v.tags tl)

  -- The calls one after another.
  abbrev pub expected_all : List Operation → View → View
  expected_all [] v = v
  expected_all (op ∷ ops) v = expected_all ops (expected op v)

  abbrev pub allowed_all : List Operation → View → Bool
  allowed_all [] v = true
  allowed_all (op ∷ ops) v = allowed op v && allowed_all ops (expected op v)
