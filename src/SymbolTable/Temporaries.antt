-- ===== src/SymbolTable/Temporaries.antt =====
-- Temporaries: what create_temporary returns, from a free list or as a new entry.
use csc.Common.{ℕ, ◌≡◌, refl, ap, true, arith}
use csc.Symbol.{SymType}
use csc.SymbolTable.Lookup.{set-same}
use csc.SymbolTable.{
  SymTab, free_list, has_free_list, get_free_temporary, create_temporary, free_temporary,
}

-- What is freed is handed out next, and the free list is as before.
pub create-free :
    (st : SymTab) (tmp : ℕ) (type : SymType)
    → (st.symbols tmp).type ≡ type
    → has_free_list type ≡ true
    → ((create_temporary type (free_temporary tmp st)).0 ≡ tmp)
      × (free_list type (create_temporary type (free_temporary tmp st)).1 ≡ free_list type st)
unfolding create_temporary get_free_temporary free_temporary
create-free st tmp SymType.char e h = rw e (refl, ap (λ s. s.next_free) (set-same st.symbols tmp _))
create-free st tmp SymType.int e h = rw e (refl, ap (λ s. s.next_free) (set-same st.symbols tmp _))
create-free st tmp SymType.addr e h = rw e (refl, ap (λ s. s.next_free) (set-same st.symbols tmp _))
create-free st tmp _ e h = ground arith
