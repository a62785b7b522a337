-- ===== src/Punica/Wrapper.antt =====
-- The wrapper of lora_warp_pipe/punica_wrapper.py: its lazy engine, `update_metadata` and
-- `add_lora`. vLLM's own wrapper, which it extends, and the arithmetic of the shrink and expand
-- kernels are parameters.
use adapter_slots_plus_plus.Common.{
  ℕ, List, [], ◌∷◌, Option, none, some, Bool, true, false, not, ◌&&◌, ◌||◌, length, ltb, get_elem?,
  set, ◌==◌, if◌then◌else◌, ◌>>=◌,
}
use mathlib.Core.Option
use adapter_slots_plus_plus.Punica.Kernel.{Index, Segment, build_seg_bounds_kernel, max_segments}
use adapter_slots_plus_plus.Punica.Grid.{visited}

-- The wrapper's class: vLLM's PunicaWrapper, its subclass FusedPunicaWrapper, and the subclasses of
-- that here.
pub data WrapperClass : Type 0 where
  punica : WrapperClass
  fused : WrapperClass
  warp_pipe : WrapperClass
  dummy : WrapperClass
  metadata_only : WrapperClass

-- The attributes of vLLM's wrapper that are read here.
pub record Wrapper : Type 0 where
  pub is_prefill : Bool
  pub token_lora_indices : List Index
  -- `token_lora_indices.is_cuda()`
  pub indices_on_cuda : Bool

-- The engine, by its device-side table of segments.
pub record Engine : Type 0 where
  pub segments : List Segment

-- The module's globals and the environment variable AS_WARP_PIPE.
pub record Process : Type 0 where
  pub import_ok : Bool
  pub as_warp_pipe : Bool
  pub engine : Option Engine

-- `WarpPipeEngine()`, whose table is zeroed.
abbrev pub new_engine : Engine
new_engine = record { segments = [] }

unfoldable pub get_engine : Process → Engine × Process
get_engine p = elim p.engine [
  | some e ↦ (e, p)
  | none ↦ (new_engine, record p { engine = some new_engine })
]

unfoldable pub warp_pipe_available : Process → Bool
warp_pipe_available p = p.import_ok && p.as_warp_pipe

-- `engine.build_seg_bounds`: whether the table was built, and the engine afterwards. `none` is the
-- exception on indices that are not on the device.
unfoldable pub build_seg_bounds : Engine → List Index → Bool → Option (Bool × Engine)
build_seg_bounds e indices on_cuda =
    if not on_cuda
    then none
    else (if ltb max_segments (length indices)
        then some (false, e)
        else some (true, record { segments = build_seg_bounds_kernel indices }))

-- The same method of two classes. The engine's answer is dropped, and `none` is its exception.
unfoldable pub build : Process → Wrapper → Option Process
unfolding get_engine build_seg_bounds
build p w = do
  let (e, p') = get_engine p
  (handled, e') ← build_seg_bounds e w.token_lora_indices w.indices_on_cuda
  some (record p' { engine = some e' })

-- The wrapper is as vLLM's own `update_metadata` has left it.
unfoldable pub update_metadata : Process → WrapperClass → Wrapper → Option Process
unfolding build warp_pipe_available
update_metadata p punica w = some p
update_metadata p fused w = some p
update_metadata p dummy w = some p
update_metadata p warp_pipe w =
    if not w.is_prefill && warp_pipe_available p then build p w else some p
update_metadata p metadata_only w =
    if not w.is_prefill && warp_pipe_available p then build p w else some p

-- `v is not None`
unfoldable pub is_given : Option ℕ → Bool
is_given none = false
is_given (some v) = true

module _ (Row : Type 0) where
  -- The arguments of `add_lora` but `y`, and what is checked of the tensors. `lora` is what the
  -- kernels make of a row of `y`, with the layer's weights and scale, from an adapter and a row of
  -- `x`.
  pub record Call : Type 0 where
    pub x : List Row
    pub lora : ℕ → Row → Row → Row
    pub y_offset : Option ℕ
    pub y_slice_size : Option ℕ
    pub is_cuda : Bool
    -- the extension's own checks: CUDA, half precision, contiguous
    pub well_formed : Bool
    -- `wb_t_all.size(-1)`
    pub rank : ℕ

  -- What a call does to `y`: the result, an exception, or a read or write out of bounds.
  pub data Result : Type 0 where
    done : List Row → Result
    raised : Result
    out_of_bounds : Result

  -- The kernels over the rows that their grid visits, of those that the table names.
  unfoldable pub dispatch : Call → List (ℕ × ℕ) → List Row → Result
  dispatch c [] y = done y
  dispatch c ((i, a) ∷ named) y = elim (get_elem? c.x i) [
    | none ↦ out_of_bounds
    | some x_i ↦ elim (get_elem? y i) [
      | none ↦ out_of_bounds
      | some y_i ↦ dispatch c named (set y i (c.lora a x_i y_i))
    ]
  ]

  -- `engine.add_lora_packed`: `none` is the answer `False`.
  unfoldable pub add_lora_packed : Engine → Call → List Row → Option Result
  unfolding dispatch
  add_lora_packed e c y =
      if not (c.rank == 32)
      then none
      else (if c.well_formed then some (dispatch c (visited e.segments) y) else some raised)

  -- The guard of `add_lora`.
  unfoldable pub falls_back : Process → Wrapper → Call → Bool
  unfolding warp_pipe_available is_given
  falls_back p w c =
      w.is_prefill
      || is_given c.y_offset
      || is_given c.y_slice_size
      || not (warp_pipe_available p)
      || not c.is_cuda
      || not (c.rank == 32)

  -- `stock` is vLLM's own `add_lora`.
  unfoldable pub add_lora :
      (stock : Wrapper → Call → List Row → Result)
      → Process
      → WrapperClass
      → Wrapper
      → Call
      → List Row
      → Result × Process
  unfolding falls_back get_engine add_lora_packed
  add_lora stock p warp_pipe w c y =
      if falls_back p w c
      then (stock w c y, p)
      else (let (e, p') = get_engine p in (Option.get_or (add_lora_packed e c y) (stock w c y), p'))
  add_lora stock p punica w c y = (stock w c y, p)
  add_lora stock p fused w c y = (stock w c y, p)
  add_lora stock p dummy w c y = (stock w c y, p)
  add_lora stock p metadata_only w c y = (stock w c y, p)
