-- ===== src/Punica/Step.antt =====
-- A decode step of the wrapper (lora_warp_pipe/punica_wrapper.py): `update_metadata`, then `add_lora`
-- for each layer.
use adapter_slots_plus_plus.Common.{
  ℕ, suc, ◌≤◌, ◌<◌, ◌≡◌, refl, ap, sym, ◌∙◌, inl, inr, List, [], ◌∷◌, ◌++◌, none, some, Bool, true,
  false, not, ◌||◌, arith, length, length-append, append_snoc, lt→ltb, le→ltb_false, get_elem?,
  get_elem?-append_length, set, ◌==◌, Option-cases,
}
use adapter_slots_plus_plus.Punica.Kernel.{Index, build_seg_bounds_kernel, max_segments}
use adapter_slots_plus_plus.Punica.Bounds.{tagged, build_seg_bounds_kernel-tagged}
use adapter_slots_plus_plus.Punica.Grid.{visited, visited-build_seg_bounds_kernel}
use adapter_slots_plus_plus.Punica.Wrapper.{
  warp_pipe, Wrapper, Engine, Process, get_engine, warp_pipe_available, build_seg_bounds, build,
  update_metadata, Call, Result, done, dispatch, add_lora_packed, falls_back, add_lora, is_given,
}

set-append_length :
    {A : Type 0} (before : List A) (y : A) (ys : List A) (v : A)
    → set (before ++ y ∷ ys) (length before) v ≡ before ++ v ∷ ys
set-append_length [] y ys v = refl
set-append_length (b ∷ before) y ys v = ap (◌∷◌ b) (set-append_length before y ys v)

-- A call of `update_metadata` that returns, and leaves the WarpPipe path as it was.
abbrev Leaves : Process → Wrapper → Engine → Type 0
Leaves p w g =
    (after : Process) × (update_metadata p warp_pipe w ≡ some after)
    × (after.engine ≡ some g)
    × (warp_pipe_available after ≡ warp_pipe_available p)

-- The table that `update_metadata` leaves for a decode step of at most 256 tokens.
update_metadata-few :
    (p : Process) (w : Wrapper)
    → w.is_prefill ≡ false
    → w.indices_on_cuda ≡ true
    → warp_pipe_available p ≡ true
    → length w.token_lora_indices ≤ max_segments
    → Leaves p w (record { segments = build_seg_bounds_kernel w.token_lora_indices })
unfolding update_metadata build build_seg_bounds get_engine warp_pipe_available
update_metadata-few p w decode cuda on few = elim (Option-cases p.engine) [
  | inl e ↦ (
    record p { engine = some (record { segments = build_seg_bounds_kernel w.token_lora_indices }) },
    rw (decode, on, e, cuda, le→ltb_false _ _ few) refl,
    refl,
    refl,
  )
  | inr (g, e) ↦ (
    record p { engine = some (record { segments = build_seg_bounds_kernel w.token_lora_indices }) },
    rw (decode, on, e, cuda, le→ltb_false _ _ few) refl,
    refl,
    refl,
  )
]

-- A step of more than 256 tokens leaves the table as it was.
update_metadata-many :
    (p : Process) (g : Engine) (w : Wrapper)
    → w.is_prefill ≡ false
    → w.indices_on_cuda ≡ true
    → warp_pipe_available p ≡ true
    → p.engine ≡ some g
    → max_segments < length w.token_lora_indices
    → Leaves p w g
unfolding update_metadata build build_seg_bounds get_engine warp_pipe_available
update_metadata-many p g w decode cuda on e many =
    (record p { engine = some g }, rw (decode, on, e, cuda, lt→ltb _ _ many) refl, refl, refl)

none_holds :
    (a b c d e f : Bool)
    → (a || b || c || not d || not e || not f) ≡ false
    → (a ≡ false) × (d ≡ true) × (f ≡ true)
none_holds a b c d e f h = ground (arith, h)

module _ {Row : Type 0} where
  -- What a step is to do: each token's row with the token's own adapter, and no other row.
  abbrev pub apply_adapters : (ℕ → Row → Row → Row) → List Index → List Row → List Row → List Row
  apply_adapters lora (none ∷ indices) (x ∷ xs) (y ∷ ys) = y ∷ apply_adapters lora indices xs ys
  apply_adapters lora (some a ∷ indices) (x ∷ xs) (y ∷ ys) =
      lora a x y ∷ apply_adapters lora indices xs ys
  apply_adapters lora _ _ ys = ys

  -- A row that is done belongs to those before.
  one_done :
      (c : Call Row) (indices : List Index) (before xs ys : List Row) (v : Row)
      → dispatch Row c (tagged (length (before ++ v ∷ [])) indices) ((before ++ v ∷ []) ++ ys)
        ≡ done ((before ++ v ∷ []) ++ apply_adapters c.lora indices xs ys)
      → dispatch Row c (tagged (suc (length before)) indices) (before ++ v ∷ ys)
        ≡ done (before ++ v ∷ apply_adapters c.lora indices xs ys)
  one_done c indices before xs ys v h =
      let long : length (before ++ v ∷ []) ≡ suc (length before) =
        omega (arith, length-append {0} before (v ∷ [])) in
      ap (λ k. dispatch Row c (tagged k indices) (before ++ v ∷ ys)) (sym long)
      ∙ ap (dispatch Row c (tagged (length (before ++ v ∷ [])) indices))
          (sym (append_snoc before v ys))
      ∙ h
      ∙ ap done (append_snoc before v (apply_adapters c.lora indices xs ys))

  dispatch-first :
      (c : Call Row) (i a : ℕ) (named : List (ℕ × ℕ)) (y : List Row) (x_i y_i : Row)
      → get_elem? c.x i ≡ some x_i
      → get_elem? y i ≡ some y_i
      → dispatch Row c ((i, a) ∷ named) y ≡ dispatch Row c named (set y i (c.lora a x_i y_i))
  unfolding dispatch
  dispatch-first c i a named y x_i y_i in_x in_y = rw (in_x, dispatch, in_y) refl

  dispatch-tagged :
      (c : Call Row) (indices : List Index) (before_x xs before ys : List Row)
      → c.x ≡ before_x ++ xs
      → length before_x ≡ length before
      → length indices ≤ length xs
      → length indices ≤ length ys
      → dispatch Row c (tagged (length before) indices) (before ++ ys)
        ≡ done (before ++ apply_adapters c.lora indices xs ys)
  unfolding dispatch tagged
  dispatch-tagged c [] before_x xs before ys e same in_x in_y = refl
  dispatch-tagged c (i ∷ indices) before_x [] before ys e same in_x in_y = absurd (omega arith)
  dispatch-tagged c (i ∷ indices) before_x (x ∷ xs) before [] e same in_x in_y =
      absurd (omega arith)
  dispatch-tagged c (none ∷ indices) before_x (x ∷ xs) before (y ∷ ys) e same in_x in_y =
      one_done c indices before xs ys y (
        dispatch-tagged c indices (before_x ++ x ∷ []) xs (before ++ y ∷ []) ys
          (e ∙ sym (append_snoc before_x x xs))
          (omega
            (arith, same, length-append {0} before_x (x ∷ []), length-append {0} before (y ∷ [])))
          (omega arith) (omega arith))
  dispatch-tagged c (some a ∷ indices) before_x (x ∷ xs) before (y ∷ ys) e same in_x in_y =
      let v = c.lora a x y in
      let x_i : get_elem? c.x (length before) ≡ some x =
        rw (e, ← same) (get_elem?-append_length before_x x xs) in
      dispatch-first c (length before) a _ (before ++ y ∷ ys) x y x_i
        (get_elem?-append_length before y ys)
      ∙ ap (dispatch Row c (tagged (suc (length before)) indices)) (set-append_length before y ys v)
      ∙ (one_done c indices before xs ys v (
          dispatch-tagged c indices (before_x ++ x ∷ []) xs (before ++ v ∷ []) ys
            (e ∙ sym (append_snoc before_x x xs))
            (omega
              (arith, same, length-append {0} before_x (x ∷ []), length-append {0} before (v ∷ [])))
            (omega arith) (omega arith)))

  -- A decode step whose table fits.
  abbrev pub Fits : Wrapper → Call Row → List Row → Type 0
  Fits w c y =
      (length w.token_lora_indices ≤ max_segments)
      × (length w.token_lora_indices ≤ length c.x)
      × (length w.token_lora_indices ≤ length y)

  -- What holds on the kernel's path.
  kernel_path :
      (p : Process) (w : Wrapper) (c : Call Row)
      → falls_back Row p w c ≡ false
      → (w.is_prefill ≡ false) × (warp_pipe_available p ≡ true) × ((c.rank == 32) ≡ true)
  unfolding falls_back
  kernel_path p w c h =
      none_holds w.is_prefill (is_given c.y_offset) (is_given c.y_slice_size)
        (warp_pipe_available p) c.is_cuda (c.rank == 32) h

  add_lora-some :
      (stock : Wrapper → Call Row → List Row → Result Row) (p : Process) (g : Engine) (w : Wrapper)
      (c : Call Row) (y : List Row)
      → falls_back Row p w c ≡ false
      → c.well_formed ≡ true
      → p.engine ≡ some g
      → add_lora Row stock p warp_pipe w c y ≡ (dispatch Row c (visited g.segments) y, p)
  unfolding add_lora add_lora_packed get_engine
  add_lora-some stock p g w c y kernel ok e =
      let rank_32 : (c.rank == 32) ≡ true = (kernel_path p w c kernel).2 in
      rw (kernel, e, rank_32, ok) refl

  falls_back-available :
      (p p' : Process) (w : Wrapper) (c : Call Row)
      → warp_pipe_available p' ≡ warp_pipe_available p
      → falls_back Row p' w c ≡ falls_back Row p w c
  unfolding falls_back
  falls_back-available p p' w c e = rw e refl

  apply_table :
      (c : Call Row) (indices : List Index) (y : List Row)
      → length indices ≤ max_segments
      → length indices ≤ length c.x
      → length indices ≤ length y
      → dispatch Row c (visited (build_seg_bounds_kernel indices)) y
        ≡ done (apply_adapters c.lora indices c.x y)
  apply_table c indices y few in_x in_y =
      ap (λ named. dispatch Row c named y)
        (visited-build_seg_bounds_kernel indices ∙ build_seg_bounds_kernel-tagged indices few)
      ∙ dispatch-tagged c indices [] c.x [] y refl refl in_x in_y

  -- A decode step of at most 256 tokens, with their indices on the device and the WarpPipe path on,
  -- then a layer's call that does not fall back, over tensors that pass the extension's checks and have
  -- a row for each token: both return, each token's row of `y` is changed by the token's own adapter,
  -- rows with no adapter stay, and the call leaves the engine as it was, so that all layers' calls of
  -- the step do the same.
  pub update_metadata-add_lora :
      (stock : Wrapper → Call Row → List Row → Result Row) (p : Process) (w : Wrapper)
      (c : Call Row) (y : List Row)
      → falls_back Row p w c ≡ false
      → w.indices_on_cuda ≡ true
      → c.well_formed ≡ true
      → length w.token_lora_indices ≤ max_segments
      → length w.token_lora_indices ≤ length c.x
      → length w.token_lora_indices ≤ length y
      → (after : Process) × (update_metadata p warp_pipe w ≡ some after)
        × (add_lora Row stock after warp_pipe w c y
            ≡ (done (apply_adapters c.lora w.token_lora_indices c.x y), after))
  update_metadata-add_lora stock p w c y kernel cuda ok few in_x in_y =
      let (decode, on, rank_32) = kernel_path p w c kernel in
      let (after, ran, table, same) = update_metadata-few p w decode cuda on few in
      (
        after,
        ran,
        add_lora-some stock after _ w c y (falls_back-available p after w c same ∙ kernel) ok table
            ∙ ap (λ r. (r, after)) (apply_table c w.token_lora_indices y few in_x in_y),
      )

  -- A decode step of more than 256 tokens right after one of at most 256, both with their indices on
  -- the device: `update_metadata` does not build a table and `add_lora` does not notice. A layer's call
  -- that does not fall back changes the rows of the older step's tokens, by the older step's adapters.
  pub update_metadata-stale :
      (stock : Wrapper → Call Row → List Row → Result Row) (p : Process) (older w : Wrapper)
      (c : Call Row) (y : List Row)
      → older.is_prefill ≡ false
      → older.indices_on_cuda ≡ true
      → falls_back Row p w c ≡ false
      → w.indices_on_cuda ≡ true
      → c.well_formed ≡ true
      → length older.token_lora_indices ≤ max_segments
      → max_segments < length w.token_lora_indices
      → length w.token_lora_indices ≤ length c.x
      → length w.token_lora_indices ≤ length y
      → (before : Process) × (after : Process) × (update_metadata p warp_pipe older ≡ some before)
        × (update_metadata before warp_pipe w ≡ some after)
        × (add_lora Row stock after warp_pipe w c y
            ≡ (done (apply_adapters c.lora older.token_lora_indices c.x y), after))
  update_metadata-stale stock p older w c y older_decode older_cuda kernel cuda ok few many in_x
        in_y =
      let (decode, on, rank_32) = kernel_path p w c kernel in
      let (before, ran, table, same) = update_metadata-few p older older_decode older_cuda on few in
      let (after, ran', table', same') =
        update_metadata-many before _ w decode cuda (same ∙ on) table many in
      (
        before,
        after,
        ran,
        ran',
        add_lora-some stock after _ w c y
              (falls_back-available before after w c same'
                ∙ falls_back-available p before w c same
                ∙ kernel)
              ok table'
            ∙ ap (λ r. (r, after))
                (apply_table c older.token_lora_indices y few (omega arith) (omega arith)),
      )
