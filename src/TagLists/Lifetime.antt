-- ===== src/TagLists/Lifetime.antt =====
-- Tag lists from their creation to their destruction.
use aggregator.Base.{
  ℕ, zero, suc, ◌*◌, ◌≤◌, ◌<◌, ◌≡◌, refl, sym, ap, ◌∙◌, List, [], ◌∷◌, none, some, All, length,
  arith, Option-cases, inl, inr, dec_lt, done, >>=-eq-done,
}
use aggregator.Common.{ReturnCode, success, CString, TagList}
use aggregator.Common.Hash.{id_from_string_identifiers}
use aggregator.Common.Hash.Identifier.{id-total}
use aggregator.Memory.{Heap, update, update_self}
use aggregator.Provider.{strcpy, load_taglist}
use aggregator.TagLists.{copy_tags, taglist_create, taglist_destroy}

copy_tags_lem :
    (tags : List CString) (h : Heap)
    → All (λ (t : CString). length t < 36 * 8) tags
    → copy_tags (length tags) tags h ≡ done tags h
unfolding copy_tags strcpy
copy_tags_lem [] h a = refl
copy_tags_lem (t ∷ tags) h a = ground (arith, copy_tags_lem tags h a.1)

-- The call keeps the streams and the buffers, and hands out addresses that were not in use.
abbrev pub Keeps : Heap → Heap → Type 0
Keeps h g = (g.streams ≡ h.streams) × (g.buffers ≡ h.buffers) × (h.fresh ≤ g.fresh)

strcpy_state :
    (str : CString) (h g : Heap) (copy : CString)
    → strcpy (36 * 8) (some str) h ≡ done copy g
    → h ≡ g
unfolding strcpy
strcpy_state str h g copy e = elim (dec_lt (length str) (36 * 8)) [
  | yes fits ↦ let ends : done str h ≡ done copy g = ground arith in cc
  | no long ↦ absurd (ground arith)
]

copy_tags_state :
    (n : ℕ) (args : List CString) (h g : Heap) (tags : List CString)
    → copy_tags n args h ≡ done tags g
    → h ≡ g
unfolding copy_tags
copy_tags_state zero args h g tags e = cc
copy_tags_state (suc n) [] h g tags e = cc
copy_tags_state (suc n) (arg ∷ args) h g tags e =
    let (tag, h₁, first, e₁) = >>=-eq-done (strcpy (36 * 8) (some arg) h) _ e in
    let (rest, h₂, second, e₂) = >>=-eq-done (copy_tags n args h₁) _ e₁ in
    let one : h ≡ h₁ = strcpy_state arg h h₁ tag first in
    one ∙ copy_tags_state n args h₁ h₂ rest second ∙ cc

pub taglist_create-Keeps :
    (n : ℕ) (args : List CString) (h g : Heap) (a : ReturnCode × ℕ)
    → taglist_create n args h ≡ done a g
    → Keeps h g
unfolding taglist_create
taglist_create-Keeps n args h g a e =
    let (tags, mid, first, rest) = >>=-eq-done (copy_tags n args h) _ e in
    let same : h ≡ mid = copy_tags_state n args h mid tags first in
    let made : record mid {
      taglists = update mid.taglists mid.fresh (some (record { taglist = tags; num_tags = n }));
      fresh = suc mid.fresh;
    }
        ≡ g =
      cc in
    (
      ap (λ (x : Heap). x.streams) (sym made) ∙ ap (λ (x : Heap). x.streams) (sym same),
      ap (λ (x : Heap). x.buffers) (sym made) ∙ ap (λ (x : Heap). x.buffers) (sym same),
      omega (arith, ap (λ (x : Heap). x.fresh) made, ap (λ (x : Heap). x.fresh) same),
    )

pub taglist_destroy-Keeps :
    (tl : ℕ) (h g : Heap) (code : ReturnCode) → taglist_destroy tl h ≡ done code g → Keeps h g
unfolding taglist_destroy load_taglist
taglist_destroy-Keeps tl h g code e = elim (Option-cases (h.taglists tl)) [
  | inl gone ↦ absurd (ground arith)
  | inr (tags, there) ↦ elim (dec_lt (length tags.taglist) tags.num_tags) [
    | yes short ↦ absurd (ground arith)
    | no long ↦
        let freed : record h { taglists = update h.taglists tl none } ≡ g =
          taken tags there (omega arith) in
        (
          ap (λ (x : Heap). x.streams) (sym freed),
          ap (λ (x : Heap). x.buffers) (sym freed),
          omega (arith, ap (λ (x : Heap). x.fresh) freed),
        )
  ]
]
  where
    taken :
        (tags : TagList)
        → h.taglists tl ≡ some tags
        → tags.num_tags ≤ length tags.taglist
        → record h { taglists = update h.taglists tl none } ≡ g
    taken tags there long =
        let ends : done success (record h { taglists = update h.taglists tl none }) ≡ done code g =
          ground arith in
        cc

-- A tag list that is created with as many strings as it says, each of which fits, holds them and gives
-- an identifier, and its destruction succeeds and frees it; neither call touches a stream or a buffer.
pub taglist-lifetime :
    (tags : List CString) (ns name : CString) (h : Heap)
    → All (λ (t : CString). length t < 36 * 8) tags
    → (tl id : ℕ) × (g k : Heap) × (taglist_create (length tags) tags h ≡ done (success, tl) g)
      × (load_taglist tl g ≡ done (record { taglist = tags; num_tags = length tags }) g)
      × (id_from_string_identifiers ns name tags (length tags) ≡ some id)
      × (taglist_destroy tl g ≡ done success k)
      × (k.taglists tl ≡ none)
      × Keeps h g
      × Keeps g k
unfolding taglist_create taglist_destroy load_taglist
taglist-lifetime tags ns name h a =
    let found = id-total ns name tags in
    let g : Heap = record h {
      taglists =
          update h.taglists h.fresh (some (record { taglist = tags; num_tags = length tags }));
      fresh = suc h.fresh;
    } in
    (
      h.fresh,
      found.0,
      g,
      record g { taglists = update g.taglists h.fresh none },
      ground (arith, copy_tags_lem tags h a),
      ground arith,
      found.1,
      ground arith,
      update_self g.taglists h.fresh none,
      (refl, refl, omega arith),
      (refl, refl, omega arith),
    )
