-- ===== src/ClockServer/Admit.antt =====
-- About the entry that the clock server of src/clock_server/clock_server.c takes for a new blocked task.
use mathlib.Core.Path.{subst}
use armv4_kernel.Prelude.{
  ℕ, ◌^◌, ◌<◌, ◌≡◌, ◌≢◌, inl, inr, refl, ap, ap₂, ◌∙◌, sym, true, false, some, List, [], ◌∷◌, ◌++◌,
  arith, ◌==◌, has, has-append, map, Bool-cases,
}
use armv4_kernel.Queue.{Ptr, Nodes, update}
use armv4_kernel.Queue.Rep.{IsQueue-frame, update-same}
use armv4_kernel.Queue.Ops.{get_queue, get_nodes, get-IsQueue}
use armv4_kernel.ClockServer.{BlockedEntry, ClockServer, node_at, insert_blocked}
use armv4_kernel.ClockServer.Front.{IsFront}
use armv4_kernel.ClockServer.Sorted.{AllDue, insert}
use armv4_kernel.ClockServer.Insert.{entry_at, place, map-place, has-place, length-place}
use armv4_kernel.ClockServer.Block.{insert_blocked_lem}
use armv4_kernel.ClockServer.Holds.{Holds, IsFront-frame, get_other, apart_ne}

map_same :
    {f g : Ptr → BlockedEntry} (ps : List Ptr)
    → ((a : Ptr) → has a ps ≡ true → f a ≡ g a)
    → map f ps ≡ map g ps
map_same [] same = refl
map_same (x ∷ xs) same =
    ap₂ ◌∷◌ (same x (ground arith)) (map_same xs (λ a i. same a (ground (arith, i))))

regroup :
    (a : Ptr) (ps fs : List Ptr) (p : Ptr) (placed : List Ptr)
    → has a placed ≡ has a (p ∷ ps)
    → has a (placed ++ fs) ≡ true
    → has a (ps ++ p ∷ fs) ≡ true
regroup a ps fs p placed e i =
    ground (arith, e, i, has-append a placed fs, has-append a ps (p ∷ fs))

module _ {s : ClockServer} {ps fs : List Ptr} {p : Ptr} (h : Holds s ps (p ∷ fs)) where
  own_new : node_at (s.nodes.payload p) ≡ p
  own_new = h.own p (has-append p ps (p ∷ fs) ∙ ground arith)

  out_new : has p ps ≡ false
  out_new = elim (Bool-cases (has p ps)) [
    | inl i ↦ let bad : has p (p ∷ fs) ≡ false = h.apart p i in absurd (ground (arith, bad))
    | inr o ↦ o
  ]

  entry_other :
      (e : BlockedEntry) (a : Ptr)
      → has a ps ≡ true
      → update s.entries (s.nodes.payload p) e (s.nodes.payload a) ≡ s.entries (s.nodes.payload a)
  entry_other e a i =
      let own_a : node_at (s.nodes.payload a) ≡ a =
        h.own a (has-append a ps (p ∷ fs) ∙ rw i refl) in
      let ne : a ≢ p = apart_ne ps out_new i in
      let differ : (s.nodes.payload a == s.nodes.payload p) ≡ false =
        ground (arith, own_a, ne, own_new) in
      rw differ refl

  free_other : (a : Ptr) → has a fs ≡ true → has a (p ∷ ps) ≡ false
  free_other a i =
      let ne : a ≢ p = apart_ne fs h.free.chain.2 i in
      elim (Bool-cases (has a ps)) [
        | inl j ↦ let bad : has a (p ∷ fs) ≡ false = h.apart a j in absurd (ground (arith, bad, i))
        | inr o ↦ ground (arith, ne, o)
      ]

  placed_apart : (a : Ptr) → has a (p ∷ ps) ≡ true → has a fs ≡ false
  placed_apart a i = elim (Bool-cases (has a fs)) [
    | inl j ↦ absurd (let bad : true ≡ false = sym i ∙ free_other a j in ground arith)
    | inr o ↦ o
  ]

-- The first unused node is taken, and its entry is inserted.
pub admit :
    {s : ClockServer} (ps fs : List Ptr) (p : Ptr) (e : BlockedEntry)
    → Holds s ps (p ∷ fs)
    → AllDue (map (entry_at s.nodes s.entries) ps)
    → e.ticks < 2 ^ 31
    → let new = s.nodes.payload p in
      let s₁ = record s {
        free_list = get_queue s.free_list s.nodes;
        nodes = get_nodes s.free_list s.nodes;
        entries = update s.entries new e;
      } in
      (s' : ClockServer) × (insert_blocked new s₁ ≡ some s')
      × (s'.ticks ≡ s.ticks)
      × ((ps' : List Ptr) × Holds s' ps' fs
          × (map (entry_at s'.nodes s'.entries) ps'
              ≡ insert e (map (entry_at s.nodes s.entries) ps)))
admit {s} ps fs p e h due small =
    let new : ℕ = s.nodes.payload p in
    let nodes : Nodes ℕ = get_nodes s.free_list s.nodes in
    let s₁ : ClockServer = record s {
      free_list = get_queue s.free_list s.nodes;
      nodes = nodes;
      entries = update s.entries new e;
    } in
    let at : Ptr → BlockedEntry = entry_at nodes s₁.entries in
    let own : node_at new ≡ p = own_new h in
    let data_ok : s.nodes.payload (node_at new) ≡ new = ap s.nodes.payload own in
    let out : has p ps ≡ false = out_new h in
    let same : map at ps ≡ map (entry_at s.nodes s.entries) ps =
      map_same ps (λ a i. entry_other h e a i) in
    let new_at : at (node_at new) ≡ e =
      ap (update s.entries new e) data_ok ∙ sym (update-same s.entries new e) in
    let front : IsFront s.blocked nodes ps =
      IsFront-frame ps h.front (λ a i. get_other s.free_list s.nodes p ps a h.free.chain.0 out i) in
    let (q, next, ins) =
      insert_blocked_lem {s = s₁} ps new front (subst AllDue (sym same) due)
        (ap (λ z. has z ps) own ∙ out) data_ok
        (let eq : e.ticks ≡ (update s.entries new e new).ticks =
            ap (λ (x : BlockedEntry). x.ticks) (update-same s.entries new e) in
          omega (arith, small, eq))
        (omega (arith, h.total)) in
    (
      record s₁ { blocked = q; nodes = record nodes { next = next } },
      ins.run,
      refl,
      (
        place at (node_at new) ps,
        record {
          front = ins.front;
          free =
              IsQueue-frame fs (get-IsQueue p fs h.free)
                (λ a i. ins.others a (rw own (free_other h a i)));
          own = λ a i. h.own a (
              regroup a ps fs p _ (has-place at (node_at new) ps a ∙ ap (λ z. has a (z ∷ ps)) own)
                i);
          apart = λ a i.
              placed_apart h a
                (sym (has-place at (node_at new) ps a ∙ ap (λ z. has a (z ∷ ps)) own) ∙ i);
          total = omega (arith, h.total, length-place at (node_at new) ps);
        },
        map-place at (node_at new) ps ∙ ap₂ insert new_at same,
      ),
    )
