-- ===== src/Database/Add/Start.antt =====
-- An addition to a database without a root.
use apteryx.Prelude.{
  ℕ, zero, suc, ◌<◌, List, [], ◌∷◌, ◌≡◌, sym, none, some, inl, inr, if◌then◌else◌, ok, Option-cases,
}
use apteryx.CString.{CString}
use apteryx.Database.Table.{HashTable}
use apteryx.Database.Heap.{Heap}
use apteryx.Database.Update.{db_add_fuel}
use apteryx.Database.View.{IsTree, descend, node_at, view, path_eq, is_prefix}
use apteryx.Database.View.Growth.{node_at-descend, node_at-none}
use apteryx.Database.Add.{View, blank, or_blank, with_prefixes}
use apteryx.Database.Add.Root.{made, db_add_fuel-made, IsTree-made, view-made}

-- With no node at the root there is none anywhere, and no root.
no_root : (G : HashTable) (h : Heap G.Table) → node_at G h [] ≡ none → h.root ≡ none
unfolding descend
no_root G h e = elim (Option-cases h.root) [
  | inl gone ↦ gone
  | inr (r, at) ↦ cc (e, node_at-descend G h r [] at)
]

pub no_nodes :
    (G : HashTable) (h : Heap G.Table)
    → IsTree G h
    → node_at G h [] ≡ none
    → (ks : List CString) → node_at G h ks ≡ none
no_nodes G h tree e ks = node_at-none G h ks (no_root G h e)

pub root_prefixes :
    (old : View) (is : List CString)
    → ((ks : List CString) → old ks ≡ none)
    → (if path_eq is [] then some none else none) ≡ with_prefixes old [] is
unfolding with_prefixes path_eq is_prefix or_blank blank
root_prefixes old [] e = rw (e [], or_blank)
root_prefixes old (k ∷ ks) e = sym (e (k ∷ ks))

pub root_add :
    (G : HashTable) (h : Heap G.Table)
    → IsTree G h
    → node_at G h [] ≡ none
    → (f : ℕ) → 0 < f
    → (h' : Heap G.Table) × (db_add_fuel G f h [] [] ≡ ok h')
      × IsTree G h'
      × ((is : List CString) → view G h' is ≡ (if path_eq is [] then some none else none))
root_add G h tree e zero l = elim l [ ]
root_add G h tree e (suc f) l =
    let empty = no_root G h e in
    (
      made G h tree empty [],
      db_add_fuel-made G h tree empty f [],
      IsTree-made G h tree empty [],
      view-made G h tree empty [],
    )
