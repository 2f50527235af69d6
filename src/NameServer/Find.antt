-- ===== src/NameServer/Find.antt =====
-- `name_map_find` of src/name_server/name_server.c after `name_map_insert`.
use mathlib.Core.Path.{sym, ◌∙◌, ap}
use armv4_kernel.Prelude.{
  ℕ, zero, suc, ◌+◌, ◌-◌, ◌<◌, ◌≡◌, ◌≢◌, refl, true, false, Option, none, some, List, [], ◌∷◌,
  arith, length, has, ◌==◌, if◌then◌else◌, lt→ltb, Bool, Bool-cases, inl, inr,
}
use armv4_kernel.Queue.{Ptr, null, update, queue_size}
use armv4_kernel.Queue.Rep.{Chain}
use armv4_kernel.Queue.Fifo.{queue_observers}
use armv4_kernel.Queue.Ops.{put_front_queue, put_front_nodes, queue_put_front-eq, put_front-IsQueue}
use armv4_kernel.CString.{Bytes, strncpy, strncmp}
use armv4_kernel.CString.Copy.{text, strncpy_lem, text-strncpy}
use armv4_kernel.CString.Compare.{IsBytes, strncmp-eq-zero}
use armv4_kernel.NameServer.{
  NameMap, node_at, max_names, max_name_len, name_map_insert, find_loop, name_map_find,
}
use armv4_kernel.NameServer.Map.{IsNameMap, down, has-down, length-down}

-- The first node of a list whose entry has the name.
abbrev pub search : List Ptr → Bytes → NameMap → Option ℕ
search [] name nm = none
search (p ∷ ps) name nm =
    let rest = search ps name nm in
    let entry = nm.nodes.payload p in
    if strncmp (nm.node_data entry).name name max_name_len == 0 then some entry else rest

some_if : (b : Bool) (x y : Option ℕ) → (if b then some x else some y) ≡ some (if b then x else y)
some_if true x y = refl
some_if false x y = refl

find_loop-search :
    (fuel : ℕ) (p : Ptr) (ps : List Ptr) (name : Bytes) (nm : NameMap)
    → Chain nm.nodes.next p ps
    → length ps < fuel
    → find_loop fuel p name nm ≡ some (search ps name nm)
unfolding find_loop
find_loop-search zero p ps name nm c f = absurd (omega arith)
find_loop-search (suc fuel) p [] name nm c f = ground arith
find_loop-search (suc fuel) p (x ∷ xs) name nm c f =
    let e : (x == null) ≡ false = ground (arith, c) in
    rw (c.0, e, find_loop-search fuel (nm.nodes.next x) xs name nm c.3 (omega arith))
      (some_if (strncmp (nm.node_data (nm.nodes.payload x)).name name max_name_len == 0)
        (some (nm.nodes.payload x)) (search xs name nm))

-- The search goes by the entries of the nodes alone.
search_same :
    (ps : List Ptr) (name : Bytes) (nm nm' : NameMap)
    → ((p : Ptr) → has p ps ≡ true → nm'.nodes.payload p ≡ nm.nodes.payload p)
    → ((p : Ptr)
        → has p ps ≡ true
        → nm'.node_data (nm.nodes.payload p) ≡ nm.node_data (nm.nodes.payload p))
    → search ps name nm' ≡ search ps name nm
search_same [] name nm nm' own same = refl
search_same (p ∷ ps) name nm nm' own same =
    let rest =
      search_same ps name nm nm' (λ a i. own a (ground arith)) (λ a i. same a (ground arith)) in
    rw (own p (ground arith), same p (ground arith), rest)

-- What the server answers for an entry, and for none.
abbrev pub reply : Option ℕ → NameMap → ℕ
reply none nm = 1
reply (some entry) nm = (nm.node_data entry).tid

pub reply_same :
    (ps : List Ptr) (name : Bytes) (nm nm' : NameMap)
    → ((p : Ptr)
        → has p ps ≡ true
        → nm'.node_data (nm.nodes.payload p) ≡ nm.node_data (nm.nodes.payload p))
    → reply (search ps name nm) nm' ≡ reply (search ps name nm) nm
reply_same [] name nm nm' same = refl
reply_same (p ∷ ps) name nm nm' same =
    elim (Bool-cases (strncmp (nm.node_data (nm.nodes.payload p)).name name max_name_len == 0)) [
      | inl e ↦ rw e (ap (λ d. d.tid) (same p (ground arith)))
      | inr e ↦ rw e (reply_same ps name nm nm' (λ a i. same a (ground arith)))
    ]

pub name_map_find-search :
    {nm : NameMap} {n : ℕ} (h : IsNameMap nm n) (name : Bytes)
    → name_map_find nm name ≡ some (search (down n) name nm)
unfolding name_map_find
name_map_find-search {nm} {n} h name =
    find_loop-search (max_names + 1) nm.queue.front (down n) name nm h.queue.chain
      (omega (arith, h.in_range, length-down n))

module _ {nm : NameMap} {n : ℕ} (h : IsNameMap nm n) (name : Bytes) (tid : ℕ) (free : n < max_names)
    (hb : IsBytes name) where
  abbrev pub copy : Bytes
  copy = strncpy (nm.node_data n).name name max_name_len

  abbrev pub inserted : NameMap
  inserted = record {
    queue = put_front_queue nm.queue (node_at n);
    nodes = put_front_nodes nm.queue (node_at n) nm.nodes;
    node_data = update nm.node_data n (record { name = copy; tid = tid });
  }

  pub insert-eq : name_map_insert nm name tid ≡ some (0, inserted)
  unfolding name_map_insert
  insert-eq =
      let size : queue_size nm.queue ≡ n = (queue_observers (down n) h.queue).1 ∙ length-down n in
      let there : (node_at n == null) ≡ false = ground arith in
      rw (
        size,
        lt→ltb n max_names free,
        there,
        h.owns n free,
        queue_put_front-eq nm.queue nm.nodes (node_at n) (omega arith),
      )

  fresh : has (node_at n) (down n) ≡ false
  fresh = elim (Bool-cases (has (node_at n) (down n))) [
    | inr out ↦ out
    | inl among ↦ absurd (omega (arith, has-down (node_at n) n among))
  ]

  copy-IsBytes : IsBytes copy
  copy-IsBytes j =
      ground (arith, strncpy_lem (nm.node_data n).name name max_name_len j, hb j, h.bytes n j)

  pub inserted-IsNameMap : IsNameMap inserted (suc n)
  inserted-IsNameMap = record {
    queue =
        put_front-IsQueue (down n) (node_at n) h.queue (omega arith) fresh
          (omega (arith, length-down n));
    in_range = omega arith;
    owns = h.owns;
    bytes = λ i j. ground (arith, copy-IsBytes j, h.bytes i j);
  }

  below : (p : Ptr) → has p (down n) ≡ true → nm.nodes.payload p < n
  below p among =
      let (pos, top) = has-down p n among in
      let e : p ≡ node_at (p - 1) = omega arith in
      omega (arith, ap nm.nodes.payload e, h.owns (p - 1) (omega arith))

  pub old_entry :
      (p : Ptr)
      → has p (down n) ≡ true
      → inserted.node_data (nm.nodes.payload p) ≡ nm.node_data (nm.nodes.payload p)
  old_entry p among = ground (arith, below p among)

  search-inserted :
      (wanted : Bytes)
      → search (down (suc n)) wanted inserted
        ≡ (if strncmp copy wanted max_name_len == 0 then some n else search (down n) wanted nm)
  search-inserted wanted =
      let newest : (n == n) ≡ true = ground arith in
      rw (
        h.owns n free,
        newest,
        search_same (down n) wanted nm inserted (λ p i. refl) (λ p i. old_entry p i),
      )

  -- A name with the same text finds the new entry.
  pub same_text :
      (wanted : Bytes)
      → IsBytes wanted
      → text max_name_len 0 wanted ≡ text max_name_len 0 name
      → name_map_find inserted wanted ≡ some (some n)
  same_text wanted wb e =
      let zero_diff : strncmp copy wanted max_name_len ≡ 0 =
        (strncmp-eq-zero copy wanted copy-IsBytes wb max_name_len).1
          (text-strncpy (nm.node_data n).name name max_name_len ∙ sym e) in
      name_map_find-search inserted-IsNameMap wanted
      ∙ ap some (search-inserted wanted ∙ rw zero_diff)

  -- Any other name is searched for as before.
  pub other_text :
      (wanted : Bytes)
      → IsBytes wanted
      → text max_name_len 0 wanted ≢ text max_name_len 0 name
      → name_map_find inserted wanted ≡ some (search (down n) wanted nm)
  other_text wanted wb ne =
      let differs : strncmp copy wanted max_name_len ≢ 0 = λ z. ne (
        sym ((strncmp-eq-zero copy wanted copy-IsBytes wb max_name_len).0 z)
        ∙ text-strncpy (nm.node_data n).name name max_name_len) in
      let test : (strncmp copy wanted max_name_len == 0) ≡ false = ground arith in
      name_map_find-search inserted-IsNameMap wanted ∙ ap some (search-inserted wanted ∙ rw test)
