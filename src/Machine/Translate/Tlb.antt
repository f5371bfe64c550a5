-- ===== src/Machine/Translate/Tlb.antt =====
-- Translation through the TLB of code/machine/translate.cc.
use my_nachos.Shared.{
  ℕ, zero, suc, subst, sym, ◌/◌, ◌%◌, ◌<◌, ◌≡◌, ◌⊎◌, refl, Bool, true, false, ◌&&◌, none, some,
  List, [], ◌∷◌, get_elem?, set, Result, ok, arith, Bool-cases, inl, inr, ◌==◌,
}
use my_nachos.Machine.State.{
  Machine, TranslationEntry, page_fault_exception, address_error_exception, page_size,
}
use my_nachos.Machine.Translate.{
  Translation, raised, misaligned, find_tlb, use_entry, translate_tlb, translate,
}
use my_nachos.Machine.Translate.Bounds.{IsAccessSize, in_page, EntryGives, use_entry-EntryGives}

abbrev pub holds_page : TranslationEntry → ℕ → Bool
holds_page e vpn = e.valid && e.virtual_page == vpn

-- No entry of the list is valid for the page.
abbrev pub AreOthers : List TranslationEntry → ℕ → Type 0
AreOthers [] vpn = Unit {0}
AreOthers (e ∷ es) vpn = (holds_page e vpn ≡ false) × AreOthers es vpn

find_tlb_lem :
    (es : List TranslationEntry) (vpn : ℕ)
    → ((find_tlb es vpn ≡ none) × AreOthers es vpn)
      ⊎ ((i : ℕ) × (e : TranslationEntry) × (find_tlb es vpn ≡ some i)
          × (get_elem? es i ≡ some e)
          × (holds_page e vpn ≡ true)
          × ((k : ℕ) (other : TranslationEntry)
              → k < i
              → get_elem? es k ≡ some other
              → holds_page other vpn ≡ false))
unfolding find_tlb
find_tlb_lem [] vpn = inl (refl, tt)
find_tlb_lem (e ∷ es) vpn = elim (Bool-cases (holds_page e vpn)) [
  | inl hit ↦ inr (0, e, rw hit, refl, hit, λ k other h. absurd (omega arith))
  | inr miss ↦ elim (find_tlb_lem es vpn) [
    | inl (nothing, others) ↦ inl (ground arith, (miss, others))
    | inr (i, e', found, at, hit, before) ↦
        inr (suc i, e', ground arith, at, hit, earlier e es vpn i miss before)
  ]
]
  where
    earlier :
        (e : TranslationEntry) (es : List TranslationEntry) (vpn i : ℕ)
        → holds_page e vpn ≡ false
        → ((k : ℕ) (other : TranslationEntry)
            → k < i
            → get_elem? es k ≡ some other
            → holds_page other vpn ≡ false)
        → (k : ℕ) (other : TranslationEntry) → k < suc i
        → get_elem? (e ∷ es) k ≡ some other
        → holds_page other vpn ≡ false
    earlier e es vpn i miss before zero other h at =
        let same : e ≡ other = ground arith in rw same at miss
    earlier e es vpn i miss before (suc k) other h at = before k other (omega arith) at

-- Every outcome through the TLB.
pub data TlbGives (m : Machine) (entries : List TranslationEntry) (va size : ℕ) (writing : Bool)
    : Result Translation → Type 0 where
  unaligned :
      misaligned va size ≡ true
      → TlbGives m entries va size writing (ok (raised address_error_exception))
  missing :
      misaligned va size ≡ false
      → AreOthers entries (va / page_size)
      → TlbGives m entries va size writing (ok (raised page_fault_exception))
  present :
      (i : ℕ) (entry : TranslationEntry) (r : Result Translation)
      → misaligned va size ≡ false
      → get_elem? entries i ≡ some entry
      → holds_page entry (va / page_size) ≡ true
      → ((k : ℕ) (other : TranslationEntry)
          → k < i
          → get_elem? entries k ≡ some other
          → holds_page other (va / page_size) ≡ false)
      → EntryGives (λ e. record m { tlb = some (set entries i e) }) entry va size writing r
      → TlbGives m entries va size writing r

-- Through a TLB, Translate of an access of 1, 2 or 4 bytes fails no assertion; it raises an
-- address error for a misaligned address, a page fault if no entry is valid for the page, and
-- otherwise uses the first valid entry for the page, with the outcomes that this entry leads to.
pub translate-TlbGives :
    (m : Machine) (entries : List TranslationEntry) (va size : ℕ) (writing : Bool)
    → m.tlb ≡ some entries
    → m.page_table ≡ none
    → IsAccessSize size
    → TlbGives m entries va size writing (translate m va size writing)
unfolding translate translate_tlb
translate-TlbGives m entries va size writing has_tlb no_table s =
    elim (Bool-cases (misaligned va size)) [
      | inl bad ↦
          let e : translate m va size writing ≡ ok (raised address_error_exception) =
            ground arith in
          subst (TlbGives m entries va size writing) (sym e) (unaligned bad)
      | inr aligned ↦ elim (find_tlb_lem entries (va / page_size)) [
        | inl (nothing, others) ↦
            let e : translate m va size writing ≡ ok (raised page_fault_exception) = ground arith in
            subst (TlbGives m entries va size writing) (sym e) (missing aligned others)
        | inr (i, entry, found, at, hit, before) ↦
            let store : TranslationEntry → Machine =
              λ x. record m { tlb = some (set entries i x) } in
            let e : translate m va size writing
                ≡ use_entry store entry (va % page_size) size writing =
              ground arith in
            subst (TlbGives m entries va size writing) (sym e) (
              present i entry _ aligned at hit before
                (use_entry-EntryGives store entry va size writing (in_page va size s aligned)))
      ]
    ]
