-- ===== src/TagLists.antt =====
-- `aggregator_taglist_create` and `aggregator_taglist_destroy` of src/client.c. The variable
-- arguments are a list. A number of tags below zero, which runs no loop, is 0 here.
pub mod Lifetime
use aggregator.Base.{
  ℕ, zero, suc, ◌*◌, List, [], ◌∷◌, Option, none, some, length, ltb, if◌then◌else◌, M, Outcome,
  done, pure, fault, and_then, ◌>>=◌,
}
use aggregator.Common.{ReturnCode, success, CString, TagList}
use aggregator.Memory.{Heap, update}
use aggregator.Provider.{strcpy, load_taglist}

-- The loop of the creation: a string is copied to memory of 36 pointers, of 8 bytes each. It is
-- undefined to take more arguments than there are.
unfoldable pub copy_tags : ℕ → List CString → M Heap (List CString)
copy_tags zero args = pure []
copy_tags (suc n) [] = fault
copy_tags (suc n) (arg ∷ args) = do
  tag ← strcpy (36 * 8) (some arg)
  tags ← copy_tags n args
  pure (tag ∷ tags)

-- The result is the return code and what is stored to `*taglist`.
unfoldable pub taglist_create : ℕ → List CString → M Heap (ReturnCode × ℕ)
taglist_create num_tags args = do
  tags ← copy_tags num_tags args
  λ h.
      done (success, h.fresh)
        (record h {
          taglists =
              update h.taglists h.fresh (some (record { taglist = tags; num_tags = num_tags }));
          fresh = suc h.fresh;
        })

-- The loop frees `num_tags` strings, which the array must have.
unfoldable pub taglist_destroy : ℕ → M Heap ReturnCode
taglist_destroy tl = do
  tags ← load_taglist tl
  if ltb (length tags.taglist) tags.num_tags
      then fault
      else (λ h. done success (record h { taglists = update h.taglists tl none }))
