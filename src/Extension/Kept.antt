-- ===== src/Extension/Kept.antt =====
-- Every call, and every step of the device, keeps the prefetch engine's invariant: the operations of
-- csrc/pybind/warp_pipe_bindings.cpp.
use adapter_slots_plus_plus.Common.{
  ◌≤◌, arith, get_elem?-set_self, get_elem?-set_ne, ℕ, ◌≡◌, ◌≢◌, ◌∙◌, sym, ap, inl, inr, List, [],
  ◌++◌, append_assoc, none, some, true, false, ◌==◌, Bool-cases, List-cases, ==_iff, eq_false→ne,
  Option-cases, get_elem?, set,
}
use mathlib.Core.Option.{some-injective}
use adapter_slots_plus_plus.Extension.Store.{
  Entry, AdapterStore, lookup, assign_entry, evict, lookup-assign_entry_ne,
  lookup-assign_entry_self, lookup-evict-some,
}
use adapter_slots_plus_plus.Extension.Cuda.{Cuda, buffer_bytes, a_buf, b_buf, Command}
use adapter_slots_plus_plus.Extension.Staging.{
  Slot, free_slot, find_slot_for_adapter, acquire_slot, release_slot, mark_copy_issued,
}
use adapter_slots_plus_plus.Extension.Table.{Built, built, threw, build_segment_table}
use adapter_slots_plus_plus.Extension.Pool.{
  Acquired, find_slot-none, get_elem?-issue_mark_ne, acquire_slot-Acquired, marked_slot,
}
use adapter_slots_plus_plus.Extension.Pending.{
  IsFenced-tail, settle, settle-append, prefetch_commands, IsFenced-prefetch_commands,
  settle-prefetch_commands_self, settle-prefetch_commands_other,
}
use adapter_slots_plus_plus.Extension.Extension.{
  WarpPipeExtension, Tensor, entry_of, register_adapter, register_adapter-some_state,
  build_segments, built_table, half_bytes, launch_prefetch_copy, issue_copies, prefetch_adapter,
  release_prefetch, evict_adapter, new_extension,
}
use adapter_slots_plus_plus.Extension.Prefetched.{
  Fits, copied-whole, copied, advance, Step, registers, evicts, prefetches, releases, builds,
  advances, IsStaged, Reach, here, next,
}

-- What is copied of a matrix that fits a buffer fits it, too.
copied-le : (n : ℕ) → n ≤ buffer_bytes → copied n ≤ buffer_bytes
copied-le n h = omega (arith, h, copied-whole n h)

module _ (cuda : Cuda) {Float : Type 0} where
  open cuda use {Device, pending, held, issue, progress, idle}

  -- A store that knows less, or differs only at an id that no slot is assigned to.
  restock :
      (x : WarpPipeExtension cuda Float) (store : AdapterStore Float)
      → ((i : ℕ) (s : Slot) (e : Entry Float)
          → get_elem? x.slots i ≡ some s
          → lookup store s.adapter_id ≡ some e
          → lookup x.store s.adapter_id ≡ some e)
      → ((id : ℕ) (e : Entry Float) → lookup store id ≡ some e → Fits e)
      → IsStaged cuda x
      → IsStaged cuda (record x { store = store })
  restock x store same fits v = record {
    fits = fits;
    fenced = v.fenced;
    copies = λ i s e at issued known. v.copies i s e at issued (same i s e at known);
  }

  registers-IsStaged :
      (x : WarpPipeExtension cuda Float) (id : ℕ) (a b : Tensor) (rank : ℕ) (alpha_scale : Float)
      (x' : WarpPipeExtension cuda Float)
      → find_slot_for_adapter x.slots id ≡ none
      → Fits (entry_of cuda Float a b rank alpha_scale)
      → register_adapter cuda Float x id a b rank alpha_scale ≡ some x'
      → IsStaged cuda x
      → IsStaged cuda x'
  registers-IsStaged x id a b rank alpha_scale x' unstaged fit h v =
      let e = entry_of cuda Float a b rank alpha_scale in
      let there = register_adapter-some_state cuda x id a b rank alpha_scale x' h in
      rw there (
        restock x (assign_entry x.store id e)
          (λ i s f at known.
            sym (
              lookup-assign_entry_ne x.store id s.adapter_id e
                (λ same. find_slot-none x.slots id i s unstaged at (sym same)))
            ∙ known)
          (λ j f known. elim (Bool-cases (id == j)) [
            | inl same ↦
                let there : id ≡ j = (==_iff id j).0 same in
                let found : lookup (assign_entry x.store id e) j ≡ some e =
                  rw (← there) (lookup-assign_entry_self x.store id e) in
                let new : e ≡ f = some-injective _ _ (sym found ∙ known) in rw (← new) fit
            | inr other ↦
                v.fits j f
                  (sym (lookup-assign_entry_ne x.store id j e (eq_false→ne id j other)) ∙ known)
          ])
          v)

  evicts-IsStaged :
      (x : WarpPipeExtension cuda Float) (id : ℕ)
      → IsStaged cuda x
      → IsStaged cuda (evict_adapter cuda Float x id)
  unfolding evict_adapter
  evicts-IsStaged x id v =
      restock x (evict x.store id)
        (λ i s e at known. lookup-evict-some x.store id s.adapter_id e known)
        (λ j e known. v.fits j e (lookup-evict-some x.store id j e known)) v

  releases-IsStaged :
      (x : WarpPipeExtension cuda Float) (id : ℕ)
      → IsStaged cuda x
      → IsStaged cuda (release_prefetch cuda Float x id)
  unfolding release_prefetch release_slot
  releases-IsStaged x id v = elim (Option-cases (find_slot_for_adapter x.slots id)) [
    | inl e ↦ rw e v
    | inr (k, e) ↦ rw e (record {
      fits = v.fits;
      fenced = v.fenced;
      copies = λ i s f at issued known. elim (Bool-cases (k == i)) [
        | inl same ↦ absurd (freed i s k ((==_iff k i).0 same) at issued)
        | inr other ↦
            v.copies i s f
              (sym (get_elem?-set_ne x.slots k i free_slot (eq_false→ne k i other)) ∙ at) issued
              known
      ];
    })
  ]
    where
      freed :
          (i : ℕ) (s : Slot) (k : ℕ)
          → k ≡ i
          → get_elem? (set x.slots k free_slot) i ≡ some s
          → s.copy_issued ≡ true
          → ⊥
      freed i s k same at issued =
          let free = get_elem?-set_self x.slots i free_slot s (rw same at at) in
          let off : s.copy_issued ≡ false = ap (λ (t : Slot). t.copy_issued) free in cc

  advances-IsStaged :
      (x : WarpPipeExtension cuda Float) → IsStaged cuda x → IsStaged cuda (advance cuda x)
  unfolding settle
  advances-IsStaged x v = elim (List-cases (pending x.device)) [
    | inl none_left ↦ rw (cuda.progress_idle x.device none_left) v
    | inr (c, cs, e) ↦ record {
      fits = v.fits;
      fenced = λ i.
          rw (cuda.pending-progress x.device c cs e) (IsFenced-tail i c cs (rw e at (v.fenced i)));
      copies = λ i s f at issued known.
          rw (cuda.pending-progress x.device c cs e, cuda.held-progress x.device c cs e)
            (rw e at (v.copies i s f at issued known));
    }
  ]

  -- A prefetch adds its commands to the stream, and finishes none.
  unfoldable pub commands_of : Entry Float → ℕ → List Command
  commands_of e i =
      prefetch_commands i e.a_ptr (copied (half_bytes e.rank e.d_model)) e.b_ptr
        (copied (half_bytes e.out_features e.rank))

  pub pending-issue_copies :
      (x : WarpPipeExtension cuda Float) (e : Entry Float) (i : ℕ) (slots : List Slot)
      → pending (issue_copies cuda Float x e i slots).device ≡ pending x.device ++ commands_of e i
  unfolding issue_copies launch_prefetch_copy mark_copy_issued commands_of
  pending-issue_copies x e i slots = simp (cuda.pending-issue, append_assoc)

  held-issue_copies :
      (x : WarpPipeExtension cuda Float) (e : Entry Float) (i : ℕ) (slots : List Slot)
      → held (issue_copies cuda Float x e i slots).device ≡ held x.device
  unfolding issue_copies launch_prefetch_copy mark_copy_issued
  held-issue_copies x e i slots = simp cuda.held-issue

  issue_copies-IsStaged :
      (x : WarpPipeExtension cuda Float) (id : ℕ) (e : Entry Float) (i : ℕ) (slots : List Slot)
      → lookup x.store id ≡ some e
      → Acquired x.slots id i slots
      → IsStaged cuda x
      → IsStaged cuda (issue_copies cuda Float x e i slots)
  unfolding issue_copies mark_copy_issued commands_of
  issue_copies-IsStaged x id e i slots known got v = record {
    fits = v.fits;
    fenced = λ j. rw (pending-issue_copies x e i slots) (
        IsFenced-prefetch_commands j i e.a_ptr _ e.b_ptr _ (pending x.device)
          (copied-le _ (v.fits id e known).0) (copied-le _ (v.fits id e known).1) (v.fenced j));
    copies = λ j s f at issued known_now.
        rw
          (
            pending-issue_copies x e i slots,
            held-issue_copies x e i slots,
            settle-append (pending x.device) (commands_of e i) (held x.device),
          )
          (elim (Bool-cases (i == j)) [
            | inl same ↦
                let here : i ≡ j = (==_iff i j).0 same in
                let id_there : s.adapter_id ≡ id =
                  marked_slot x.slots slots id i s got (rw (← here) at at) in
                let known_there : lookup x.store id ≡ some f = rw id_there at known_now in
                let entry : e ≡ f = cc in
                rw (← here, ← entry)
                  (settle-prefetch_commands_self i e.a_ptr _ e.b_ptr _
                    (settle (pending x.device) (held x.device)) (copied-le _ (v.fits id e known).0)
                    (copied-le _ (v.fits id e known).1))
            | inr other ↦
                let ne : i ≢ j = eq_false→ne i j other in
                let before = sym (get_elem?-issue_mark_ne slots i j ne ∙ got.1 j ne) ∙ at in
                let old = v.copies j s f before issued known_now in
                let untouched =
                  settle-prefetch_commands_other i e.a_ptr _ e.b_ptr _
                    (settle (pending x.device) (held x.device)) in
                let fits_a = copied-le _ (v.fits id e known).0 in
                let fits_b = copied-le _ (v.fits id e known).1 in
                (
                  untouched (a_buf j) fits_a fits_b ne ∙ old.0,
                  untouched (b_buf j) fits_a fits_b ne ∙ old.1,
                )
          ]);
  }

  prefetches-IsStaged :
      (x : WarpPipeExtension cuda Float) (id : ℕ)
      → IsStaged cuda x
      → IsStaged cuda (prefetch_adapter cuda Float x id).0
  unfolding prefetch_adapter
  prefetches-IsStaged x id v = elim (Option-cases (lookup x.store id)) [
    | inl e ↦ rw (e, prefetch_adapter) v
    | inr (entry, known) ↦ elim (Option-cases (acquire_slot x.slots id)) [
      | inl e ↦ rw (known, e, prefetch_adapter) v
      | inr ((i, slots), e) ↦
          rw (known, e, prefetch_adapter)
            (issue_copies-IsStaged x id entry i slots known
              (acquire_slot-Acquired x.slots id i slots e) v)
    ]
  ]

  builds-IsStaged :
      (x : WarpPipeExtension cuda Float) (ids offsets : List ℕ)
      → IsStaged cuda x
      → IsStaged cuda (build_segments cuda Float x ids offsets).0
  unfolding build_segments
  builds-IsStaged x ids offsets v =
      built_table-IsStaged (build_segment_table cuda x.meta ids offsets x.store x.slots x.device)
    where
      built_table-IsStaged : (r : Built Float) → IsStaged cuda (built_table cuda Float x r).0
      built_table-IsStaged (built table) = record {
        fits = v.fits;
        fenced = v.fenced;
        copies = v.copies;
      }
      built_table-IsStaged (threw table) = record {
        fits = v.fits;
        fenced = v.fenced;
        copies = v.copies;
      }

  pub Step-IsStaged :
      {x x' : WarpPipeExtension cuda Float}
      → Step cuda Fits x x'
      → IsStaged cuda x
      → IsStaged cuda x'
  Step-IsStaged {x} {x'} (registers id a b rank alpha_scale unstaged fit done) v =
      registers-IsStaged x id a b rank alpha_scale x' unstaged fit done v
  Step-IsStaged {x} (evicts id) v = evicts-IsStaged x id v
  Step-IsStaged {x} (prefetches id) v = prefetches-IsStaged x id v
  Step-IsStaged {x} (releases id) v = releases-IsStaged x id v
  Step-IsStaged {x} (builds ids offsets) v = builds-IsStaged x ids offsets v
  Step-IsStaged {x} advances v = advances-IsStaged x v

  new_extension-IsStaged : (z : Float) → IsStaged cuda (new_extension cuda Float z)
  unfolding lookup
  new_extension-IsStaged z = record {
    fits = unknown_id;
    fenced = λ i. rw cuda.pending-idle tt;
    copies = λ i s e at issued known. absurd (unknown s e known);
  }
    where
      unknown : (s : Slot) (e : Entry Float) → lookup [] s.adapter_id ≡ some e → ⊥
      unknown s e known = absurd (cc)

      unknown_id : (id : ℕ) (e : Entry Float) → lookup [] id ≡ some e → Fits e
      unknown_id id e known = absurd (cc)

  pub Reach-IsStaged :
      (z : Float) {x : WarpPipeExtension cuda Float}
      → Reach cuda Fits (new_extension cuda Float z) x
      → IsStaged cuda x
  Reach-IsStaged z here = new_extension-IsStaged z
  Reach-IsStaged z (next r st) = Step-IsStaged st (Reach-IsStaged z r)
