-- ===== src/Scope.antt =====
-- src/SymbolTable.h and src/SymbolTable.cpp: a table of symbols with the table around it.
use d_gen.Prelude.{
  ◌≡◌, refl, Option, none, some, List, [], ◌∷◌, String, str_eq, eq_iff, arith, if◌then◌else◌,
}
use d_gen.Ast.{Symbol}

-- The std::unordered_map. An entry may be a null pointer, as `create_symbol` may return one.
abbrev pub Table : Type 0
Table = List (String × Option Symbol)

-- `root` is a table with no outer table.
pub data SymbolTable : Type 0 where
  root : Table → SymbolTable
  nested : Table → SymbolTable → SymbolTable

-- table[name] = symbol
unfoldable pub insert : String → Option Symbol → Table → Table
insert n s [] = (n, s) ∷ []
insert n s ((m, r) ∷ t) = if str_eq m n then (n, s) ∷ t else (m, r) ∷ insert n s t

-- table.find(name)
unfoldable pub find : String → Table → Option (Option Symbol)
find n [] = none
find n ((m, r) ∷ t) = if str_eq m n then some r else find n t

unfoldable pub add_symbol : String → Option Symbol → SymbolTable → SymbolTable
add_symbol n s (root t) = root (insert n s t)
add_symbol n s (nested t outer) = nested (insert n s t) outer

-- A null pointer is `none`.
unfoldable pub find_symbol : SymbolTable → String → Option Symbol
find_symbol (root t) n = elim (find n t) [ some s ↦ s | none ↦ none ]
find_symbol (nested t outer) n =
    let rest = find_symbol outer n in elim (find n t) [ some s ↦ s | none ↦ rest ]

find-insert :
    (n m : String) (s : Option Symbol) (t : Table)
    → find m (insert n s t) ≡ (if str_eq n m then some s else find m t)
unfolding find insert
find-insert n m s [] = refl
find-insert n m s ((j, r) ∷ t) =
    ground (arith, eq_iff n m, eq_iff j n, eq_iff j m, find-insert n m s t)

-- After `add_symbol n s` the name `n` stands for `s`, whatever it stood for before in this table
-- or in the tables around it, and every other name for what it stood for.
pub find_symbol-add_symbol :
    (n m : String) (s : Option Symbol) (t : SymbolTable)
    → find_symbol (add_symbol n s t) m ≡ (if str_eq n m then s else find_symbol t m)
unfolding find_symbol add_symbol
find_symbol-add_symbol n m s (root t) = ground (arith, find-insert n m s t)
find_symbol-add_symbol n m s (nested t outer) = ground (arith, find-insert n m s t)

-- A new inner table shows what the outer table shows.
pub find_symbol-nested :
    (t : SymbolTable) (m : String) → find_symbol (nested [] t) m ≡ find_symbol t m
unfolding find_symbol find
find_symbol-nested t m = refl
