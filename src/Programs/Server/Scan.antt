-- ===== src/Programs/Server/Scan.antt =====
-- The scan of the server program for the end of a protocol's name.
use aggregator.Base.{
  ℕ, suc, ◌+◌, ◌-◌, ◌<◌, ◌≡◌, refl, ap, ◌∙◌, true, false, [], ◌∷◌, ◌++◌, map, none, some, length,
  length-append, replicate, All, Bool-cases, inl, inr, arith,
}
use aggregator.Common.{CString}
use aggregator.Programs.Server.{Memory, is_end, scan, addr_array}

-- The text is at its end, or goes on with a character that ends the scan.
abbrev pub Ends : CString → Type 0
Ends [] = Unit {0}
Ends (c ∷ text) = is_end c ≡ true

scan_hit : (i c : ℕ) (memory : Memory) → is_end c ≡ true → scan i (some c ∷ memory) ≡ some i
unfolding scan
scan_hit i c memory e = rw e refl

scan_miss :
    (i c : ℕ) (memory : Memory) → is_end c ≡ false → scan i (some c ∷ memory) ≡ scan (suc i) memory
unfolding scan
scan_miss i c memory e = rw e refl

scan_lem :
    (text : CString) (i : ℕ) (rest : Memory)
    → (pre post : CString) × (text ≡ pre ++ post)
      × (scan i (map (λ c. some c) text ++ some 0 ∷ rest) ≡ some (i + length pre))
      × All (λ c. is_end c ≡ false) pre
      × Ends post
scan_lem [] i rest = ([], [], refl, scan_hit i 0 rest refl ∙ ap (λ j. some j) (omega arith), tt, tt)
scan_lem (c ∷ text) i rest = elim (Bool-cases (is_end c)) [
  | inl yes' ↦ ([], c ∷ text, refl, scan_hit i c _ yes' ∙ ap (λ j. some j) (omega arith), tt, yes')
  | inr no' ↦
      let (pre, post, whole, found, before, after) = scan_lem text (suc i) rest in
      (
        c ∷ pre,
        post,
        ap (◌∷◌ c) whole,
        scan_miss i c _ no' ∙ found ∙ ap (λ j. some j) (omega arith),
        (no', before),
        after,
      )
]

-- On an address that fits the array with its terminator, the scan ends inside the array: it stops at the
-- first `:` or `;`, or at the terminator where there is none.
pub scan_stops :
    (text : CString)
    → length text < 1024
    → (pre post : CString) × (text ≡ pre ++ post)
      × (scan 0 (addr_array (some text)) ≡ some (length pre))
      × (length pre < 1024)
      × All (λ c. is_end c ≡ false) pre
      × Ends post
scan_stops text small =
    let (pre, post, whole, found, before, after) =
      scan_lem text 0 (replicate (1023 - length text) none) in
    let inside : length pre < 1024 = omega (arith, ap length whole, length-append pre post) in
    (pre, post, whole, found ∙ ap (λ j. some j) (omega arith), inside, before, after)
