-- ===== src/Database/Heap.antt =====
-- `struct database_node`, and the memory that holds the nodes. A pointer is a number, no number is
-- handed out twice, and a freed number stays invalid. T is the type of the children's tables.
use apteryx.Prelude.{
  ℕ, ◌+◌, ◌≡◌, Option, none, some, List, ◌==◌, if◌then◌else◌, Result, ok, fault, use_after_free,
}
use apteryx.CString.{CString}

pub record Node (T : Type 0) : Type 0 where
  pub key : CString
  pub value : Option (List ℕ)
  pub length : ℕ
  pub parent : Option ℕ
  pub children : Option T
  pub removing : ℕ

-- `root` is the static variable of database.c, and `next` the next number to hand out.
pub record Heap (T : Type 0) : Type 0 where
  pub cell : ℕ → Option (Node T)
  pub next : ℕ
  pub root : Option ℕ

module _ {T : Type 0} where
  unfoldable pub set_cell : (ℕ → Option (Node T)) → ℕ → Option (Node T) → ℕ → Option (Node T)
  set_cell f p c q = if p == q then c else f q

  -- Access through a pointer: to memory that is not a live node it is a fault.
  unfoldable pub deref : Option (Node T) → Result (Node T)
  deref none = fault use_after_free
  deref (some n) = ok n

  unfoldable pub load : Heap T → ℕ → Result (Node T)
  unfolding deref
  load h p = deref (h.cell p)

  unfoldable pub store : Heap T → ℕ → Node T → Heap T
  unfolding set_cell
  store h p n = record h { cell = set_cell h.cell p (some n) }

  -- calloc and the assignments of `key` and `parent` that follow.
  unfoldable pub fresh_node : CString → Option ℕ → Node T
  fresh_node key parent = record {
    key = key;
    value = none;
    length = 0;
    parent = parent;
    children = none;
    removing = 0;
  }

  unfoldable pub alloc : Heap T → Node T → Heap T
  unfolding set_cell
  alloc h n = record h { cell = set_cell h.cell h.next (some n); next = h.next + 1 }

  unfoldable pub free : Heap T → ℕ → Heap T
  unfolding set_cell
  free h p = record h { cell = set_cell h.cell p none }

  pub load-live : (h : Heap T) (p : ℕ) (n : Node T) → h.cell p ≡ some n → load h p ≡ ok n
  unfolding load
  load-live h p n e = rw (e, deref)
