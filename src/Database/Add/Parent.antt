-- ===== src/Database/Add/Parent.antt =====
-- `db_parent_get` and `find_or_add` at a path with a last key.
use apteryx.Prelude.{ℕ, suc, List, [], ◌∷◌, ◌++◌, ◌≡◌, ◌≢◌, refl, none, some, Result, ok}
use apteryx.CString.{CString}
use apteryx.Database.Table.{HashTable}
use apteryx.Database.Heap.{Heap}
use apteryx.Database.Walk.{db_path_to_node}
use apteryx.Database.Update.{db_parent_get, find_or_add, db_node_add, write_value, db_add_fuel}
use apteryx.Database.Walk.Tokens.{parent_path, last_key}
use apteryx.Database.View.{IsKey, render}
use apteryx.Database.View.Keys.{split_last-render}

pub parent_path-render :
    (js : List CString) (k : CString) → IsKey k → parent_path (render (js ++ k ∷ [])) ≡ render js
unfolding parent_path
parent_path-render js k w = rw (split_last-render js k w, parent_path)

pub last_key-render :
    (js : List CString) (k : CString) → IsKey k → last_key (render (js ++ k ∷ [])) ≡ k
unfolding last_key
last_key-render js k w = rw (split_last-render js k w, last_key)

pub render-ne-nil : (js : List CString) (k : CString) → render (js ++ k ∷ []) ≢ []
unfolding render
render-ne-nil [] k e = cc
render-ne-nil (j ∷ js) k e = cc

module _ (G : HashTable) (add : Heap G.Table → CString → Result (Heap G.Table))
    (h : Heap G.Table) where
  parent_found :
      (path : CString) (q : ℕ)
      → path ≢ []
      → db_path_to_node G h (parent_path path) ≡ ok (some q)
      → db_parent_get G add h path ≡ ok (some q, h)
  unfolding db_parent_get
  parent_found [] q ne e = absurd (ne refl)
  parent_found (c ∷ s) q ne e = rw e

  parent_made :
      (path : CString) (h' : Heap G.Table) (q : ℕ)
      → path ≢ []
      → db_path_to_node G h (parent_path path) ≡ ok none
      → add h (parent_path path) ≡ ok h'
      → db_path_to_node G h' (parent_path path) ≡ ok (some q)
      → db_parent_get G add h path ≡ ok (some q, h')
  unfolding db_parent_get
  parent_made [] h' q ne e a e' = absurd (ne refl)
  parent_made (c ∷ s) h' q ne e a e' = rw (e, a, e')

  module _ (js : List CString) (k : CString) (w : IsKey k) where
    pub db_parent_get-found :
        (q : ℕ)
        → db_path_to_node G h (render js) ≡ ok (some q)
        → db_parent_get G add h (render (js ++ k ∷ [])) ≡ ok (some q, h)
    db_parent_get-found q e =
        parent_found (render (js ++ k ∷ [])) q (render-ne-nil js k)
          (rw (parent_path-render js k w) e)

    pub db_parent_get-made :
        (h' : Heap G.Table) (q : ℕ)
        → db_path_to_node G h (render js) ≡ ok none
        → add h (render js) ≡ ok h'
        → db_path_to_node G h' (render js) ≡ ok (some q)
        → db_parent_get G add h (render (js ++ k ∷ [])) ≡ ok (some q, h')
    db_parent_get-made h' q e a e' =
        parent_made (render (js ++ k ∷ [])) h' q (render-ne-nil js k)
          (rw (parent_path-render js k w) e) (rw (parent_path-render js k w) a)
          (rw (parent_path-render js k w) e')

    -- No node at the path: one is made below the parent.
    pub find_or_add-made :
        (h' h'' : Heap G.Table) (q p : ℕ)
        → db_path_to_node G h (render (js ++ k ∷ [])) ≡ ok none
        → db_parent_get G add h (render (js ++ k ∷ [])) ≡ ok (some q, h')
        → db_node_add G h' (some q) k ≡ ok (p, h'')
        → find_or_add G add h (render (js ++ k ∷ [])) ≡ ok (p, h'')
    unfolding find_or_add
    find_or_add-made h' h'' q p e g a = rw (e, g, last_key-render js k w, a)

  pub find_or_add-found :
      (path : CString) (p : ℕ)
      → db_path_to_node G h path ≡ ok (some p)
      → find_or_add G add h path ≡ ok (p, h)
  unfolding find_or_add
  find_or_add-found path p e = rw e

-- The recursion of `db_add`, one round.
pub db_add_fuel-suc :
    (G : HashTable) (f : ℕ) (h : Heap G.Table) (path : CString) (v : List ℕ) (p : ℕ)
    {h' h'' : Heap G.Table}
    → find_or_add G (λ h₀ parent. db_add_fuel G f h₀ parent []) h path ≡ ok (p, h')
    → write_value G h' p v ≡ ok h''
    → db_add_fuel G (suc f) h path v ≡ ok h''
unfolding db_add_fuel
db_add_fuel-suc G f h path v p e w = rw (e) w
