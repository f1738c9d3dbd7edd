-- ===== src/Proc/Space/Fault.antt =====
-- The page fault of a stack that grows.
use mosix_3d.Prelude.{
  ℕ, ◌+◌, ◌-◌, ◌*◌, ◌/◌, ◌%◌, ◌^◌, ◌<◌, ◌≡◌, ◌≢◌, refl, ap, ◌∙◌, sym, true, false, ◌&&◌, ltb, some,
  arith, if◌then◌else◌, ◌==◌, u64,
}
use mathlib.Core.Path.{subst}
use mosix_3d.Mem.Pages.{alloc_phy, page_size}
use mosix_3d.Mem.Paging.{Tables, get_index, set_mapping}
use mosix_3d.Mem.Paging.Translate.{translate, IsOutside}
use mosix_3d.Mem.Paging.Mapping.{translate-set_mapping}
use mosix_3d.Proc.Space.{Stack, pf_commitmem, noexec}

same_page : (x : ℕ) → get_index (x - x % page_size) ≡ get_index x
same_page x = omega arith

-- A fault above the first byte of the reserved stack, and below its end, maps the page of its address to the
-- page that was free for it, if there is one and no table is lost. The translation of every other page
-- stays as it was, but for the windows.
pub pf_commitmem_lem :
    (t : Tables) (s : Stack) (cr2 b : ℕ)
    → s.rsb < cr2
    → cr2 < s.rsb + s.sl * page_size
    → s.rsb + s.sl * page_size < 2 ^ 64
    → IsOutside cr2
    → IsOutside b
    → (alloc_phy t.free 1).0 ≢ 0
    → (pf_commitmem t s cr2).1.lost ≡ false
    → ((pf_commitmem t s cr2).0 ≡ true)
      × (translate (pf_commitmem t s cr2).1.words b ≡ (
          if get_index cr2 == get_index b
          then some ((alloc_phy t.free 1).0 / 2 ^ 12 % 2 ^ 40)
          else translate t.words b))
unfolding pf_commitmem
pf_commitmem_lem t s cr2 b l m w oa ob some_page k =
    let phy = (alloc_phy t.free 1).0 in
    let new : Tables = record t { free = (alloc_phy t.free 1).1 } in
    let page = cr2 - cr2 % page_size in
    let out : IsOutside page = subst (λ z. z / 2 ^ 27 ≢ 0x1fe) (sym (same_page cr2)) oa in
    let inside : (ltb s.rsb cr2 && ltb cr2 (u64 (s.rsb + s.sl * page_size))) ≡ true =
      ground arith in
    let done : pf_commitmem t s cr2 ≡ (true, set_mapping new page phy noexec) = rw inside refl in
    let kept : (set_mapping new page phy noexec).lost ≡ false = sym (ap (λ r. r.1.lost) done) ∙ k in
    (
      ap (λ r. r.0) done,
      ap (λ r. translate r.1.words b) done
          ∙ translate-set_mapping new page phy noexec b out ob kept
          ∙ ap (λ i. if i == get_index b then some (phy / 2 ^ 12 % 2 ^ 40) else translate t.words b)
              (same_page cr2),
    )
