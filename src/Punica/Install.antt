-- ===== src/Punica/Install.antt =====
-- The installers of lora_warp_pipe/punica_wrapper.py. An attribute that is missing, or None, is
-- `none`; a wrapper is named by its class, which is all that an installer changes.
use adapter_slots_plus_plus.Common.{
  ◌≡◌, ◌≢◌, ◌↔◌, ◌∙◌, sym, subst, ◌&&◌, inl, inr, Option-cases, Bool-cases, refl, arith, Option,
  none, some, Bool, true, false, not, ◌||◌, if◌then◌else◌,
}
use mathlib.Core.Option.{some-injective}
use mathlib.Core.Path.{fun_ext}
use adapter_slots_plus_plus.Punica.Wrapper.{
  WrapperClass, punica, fused, warp_pipe, dummy, metadata_only, Process,
}

pub record AdapterManager : Type 0 where
  pub punica_wrapper : Option WrapperClass

pub record LoraManager : Type 0 where
  pub adapter_manager : Option AdapterManager

-- `isinstance(wrapper, …)` for a class with no subclasses.
unfoldable pub is_instance : WrapperClass → WrapperClass → Bool
is_instance warp_pipe warp_pipe = true
is_instance dummy dummy = true
is_instance metadata_only metadata_only = true
is_instance _ _ = false

-- The assignment to `wrapper.__class__`.
abbrev pub with_class : WrapperClass → LoraManager
with_class k = record { adapter_manager = some (record { punica_wrapper = some k }) }

unfoldable pub install_warp_pipe_dummy : Bool → Option LoraManager → Bool × Option LoraManager
unfolding is_instance
install_warp_pipe_dummy vllm_punica_available none = (false, none)
install_warp_pipe_dummy vllm_punica_available (some lora_manager) =
    if not vllm_punica_available
    then (false, some lora_manager)
    else elim lora_manager.adapter_manager [
      | none ↦ (false, some lora_manager)
      | some adapter_manager ↦ elim adapter_manager.punica_wrapper [
        | none ↦ (false, some lora_manager)
        | some wrapper ↦
            if is_instance wrapper dummy
            then (false, some lora_manager)
            else (true, some (with_class dummy))
      ]
    ]

unfoldable pub install_warp_pipe_metadata_only :
    Bool → Process → Option LoraManager → Bool × Option LoraManager
unfolding is_instance
install_warp_pipe_metadata_only vllm_punica_available p none = (false, none)
install_warp_pipe_metadata_only vllm_punica_available p (some lora_manager) =
    if not vllm_punica_available || not p.import_ok
    then (false, some lora_manager)
    else elim lora_manager.adapter_manager [
      | none ↦ (false, some lora_manager)
      | some adapter_manager ↦ elim adapter_manager.punica_wrapper [
        | none ↦ (false, some lora_manager)
        | some wrapper ↦
            if is_instance wrapper metadata_only
            then (false, some lora_manager)
            else (true, some (with_class metadata_only))
      ]
    ]

unfoldable pub install_warp_pipe_add_lora :
    Bool → Process → Option LoraManager → Bool × Option LoraManager
unfolding is_instance
install_warp_pipe_add_lora vllm_punica_available p none = (false, none)
install_warp_pipe_add_lora vllm_punica_available p (some lora_manager) =
    if not vllm_punica_available || not p.import_ok
    then (false, some lora_manager)
    else elim lora_manager.adapter_manager [
      | none ↦ (false, some lora_manager)
      | some adapter_manager ↦ elim adapter_manager.punica_wrapper [
        | none ↦ (false, some lora_manager)
        | some wrapper ↦
            if is_instance wrapper warp_pipe
            then (false, some lora_manager)
            else (true, some (with_class warp_pipe))
      ]
    ]

-- The class of the wrapper, where there is one.
abbrev pub wrapper_of : Option LoraManager → Option WrapperClass
wrapper_of none = none
wrapper_of (some m) = elim m.adapter_manager [ none ↦ none | some a ↦ a.punica_wrapper ]

is_instance→≡ : (w k : WrapperClass) → is_instance w k ≡ true → w ≡ k
unfolding is_instance
is_instance→≡ punica k h = absurd (cc)
is_instance→≡ fused k h = absurd (cc)
is_instance→≡ warp_pipe punica h = absurd (cc)
is_instance→≡ warp_pipe fused h = absurd (cc)
is_instance→≡ warp_pipe warp_pipe h = refl
is_instance→≡ warp_pipe dummy h = absurd (cc)
is_instance→≡ warp_pipe metadata_only h = absurd (cc)
is_instance→≡ dummy punica h = absurd (cc)
is_instance→≡ dummy fused h = absurd (cc)
is_instance→≡ dummy warp_pipe h = absurd (cc)
is_instance→≡ dummy dummy h = refl
is_instance→≡ dummy metadata_only h = absurd (cc)
is_instance→≡ metadata_only punica h = absurd (cc)
is_instance→≡ metadata_only fused h = absurd (cc)
is_instance→≡ metadata_only warp_pipe h = absurd (cc)
is_instance→≡ metadata_only dummy h = absurd (cc)
is_instance→≡ metadata_only metadata_only h = refl

-- There is a wrapper, of another class than `k`.
abbrev pub IsOther : WrapperClass → Option LoraManager → Type 0
IsOther k m = (w : WrapperClass) × (wrapper_of m ≡ some w) × (w ≢ k)

abbrev Once :
    Bool
    → (Option LoraManager → Bool × Option LoraManager)
    → WrapperClass
    → Option LoraManager
    → Bool × Option LoraManager
    → Type 0
Once ok install k m (installed, m') =
    ((installed ≡ true) ↔ ((ok ≡ true) × IsOther k m))
    × (m' ≡ (if installed then some (with_class k) else m))
    × (install m' ≡ (false, m'))

-- The installer answers True exactly where `ok` holds and there is a wrapper, of another class than
-- `k`; then it has given the wrapper the class `k`, and else it has changed nothing. Asked again, it
-- answers False and changes nothing.
abbrev pub InstallsOnce :
    Bool
    → (Option LoraManager → Bool × Option LoraManager)
    → WrapperClass
    → Option LoraManager
    → Type 0
InstallsOnce ok install k m = Once ok install k m (install m)

module _ (ok : Bool) (install : Option LoraManager → Bool × Option LoraManager) (k : WrapperClass)
    (m : Option LoraManager) where
  refuses-InstallsOnce :
      install m ≡ (false, m) → ¬ ((ok ≡ true) × IsOther k m) → InstallsOnce ok install k m
  refuses-InstallsOnce e unmet =
      subst (Once ok install k m) (sym e) ((λ h. absurd (cc), λ h. absurd (unmet h)), refl, e)

  installs-InstallsOnce :
      install m ≡ (true, some (with_class k))
      → install (some (with_class k)) ≡ (false, some (with_class k))
      → ok ≡ true
      → IsOther k m
      → InstallsOnce ok install k m
  installs-InstallsOnce e again met other =
      subst (Once ok install k m) (sym e) ((λ h. (met, other), λ h. refl), refl, again)

-- What the three installers share.
unfoldable outcome : Bool → WrapperClass → Option LoraManager → Bool × Option LoraManager
unfolding is_instance
outcome ok k m =
    if ok
    then elim (wrapper_of m) [
      | none ↦ (false, m)
      | some w ↦ if is_instance w k then (false, m) else (true, some (with_class k))
    ]
    else (false, m)

outcome-some :
    (k w : WrapperClass) (m : Option LoraManager)
    → wrapper_of m ≡ some w
    → outcome true k m ≡ (if is_instance w k then (false, m) else (true, some (with_class k)))
unfolding outcome
outcome-some k w m e = rw e refl

outcome-none :
    (k : WrapperClass) (m : Option LoraManager)
    → wrapper_of m ≡ none
    → outcome true k m ≡ (false, m)
unfolding outcome
outcome-none k m e = rw e refl

outcome-InstallsOnce :
    (ok : Bool) (k : WrapperClass) (m : Option LoraManager)
    → is_instance k k ≡ true
    → InstallsOnce ok (outcome ok k) k m
unfolding outcome
outcome-InstallsOnce false k m self =
    refuses-InstallsOnce false (outcome false k) k m refl (λ h. let e = h.0 in cc)
outcome-InstallsOnce true k m self = elim (Option-cases (wrapper_of m)) [
  | inl e ↦
      refuses-InstallsOnce true (outcome true k) k m (outcome-none k m e)
        (λ h. let found = h.1.1 in cc)
  | inr (w, e) ↦ elim (Bool-cases (is_instance w k)) [
    | inl same ↦
        let is_k = is_instance→≡ w k same in
        refuses-InstallsOnce true (outcome true k) k m (outcome-some k w m e ∙ rw same refl)
          (λ h. let (met, (v, found, ne)) = h in ne (some-injective _ _ (sym found ∙ e) ∙ is_k))
    | inr other ↦
        installs-InstallsOnce true (outcome true k) k m (outcome-some k w m e ∙ rw other refl)
          (rw self refl) refl
          (w, e, λ there. let self' : is_instance w k ≡ true = rw there self in cc)
  ]
]

-- An installer is a case of it.
follows-InstallsOnce :
    (ok : Bool) (k : WrapperClass) (install : Option LoraManager → Bool × Option LoraManager)
    → is_instance k k ≡ true
    → ((m : Option LoraManager) → install m ≡ outcome ok k m)
    → (m : Option LoraManager) → InstallsOnce ok install k m
follows-InstallsOnce ok k install self same m =
    subst (λ f. InstallsOnce ok f k m) (sym (fun_ext same)) (outcome-InstallsOnce ok k m self)

dummy-outcome :
    (v : Bool) (m : Option LoraManager) → install_warp_pipe_dummy v m ≡ outcome v dummy m
unfolding install_warp_pipe_dummy outcome
dummy-outcome true none = refl
dummy-outcome false none = refl
dummy-outcome true (some m) = ground arith
dummy-outcome false (some m) = refl

metadata_only-outcome :
    (v : Bool) (p : Process) (m : Option LoraManager)
    → install_warp_pipe_metadata_only v p m ≡ outcome (v && p.import_ok) metadata_only m
unfolding install_warp_pipe_metadata_only outcome
metadata_only-outcome v p none = ground arith
metadata_only-outcome v p (some m) = ground arith

add_lora-outcome :
    (v : Bool) (p : Process) (m : Option LoraManager)
    → install_warp_pipe_add_lora v p m ≡ outcome (v && p.import_ok) warp_pipe m
unfolding install_warp_pipe_add_lora outcome
add_lora-outcome v p none = ground arith
add_lora-outcome v p (some m) = ground arith

-- The diagnostic installer answers True exactly where vLLM's LoRA support is there and there is a
-- wrapper of another class than its own; the two others also ask for the extension. Each changes the
-- wrapper's class only when it answers True, gives it its own class, and does nothing when it is asked
-- again.
pub install_lem :
    (vllm_punica_available : Bool) (p : Process) (m : Option LoraManager)
    → let ok = vllm_punica_available && p.import_ok in
      InstallsOnce vllm_punica_available (install_warp_pipe_dummy vllm_punica_available) dummy m
      × InstallsOnce ok (install_warp_pipe_metadata_only vllm_punica_available p) metadata_only m
      × InstallsOnce ok (install_warp_pipe_add_lora vllm_punica_available p) warp_pipe m
unfolding is_instance
install_lem v p m = (
  follows-InstallsOnce v dummy (install_warp_pipe_dummy v) refl (dummy-outcome v) m,
  follows-InstallsOnce (v && p.import_ok) metadata_only (install_warp_pipe_metadata_only v p) refl
      (metadata_only-outcome v p) m,
  follows-InstallsOnce (v && p.import_ok) warp_pipe (install_warp_pipe_add_lora v p) refl
      (add_lora-outcome v p) m,
)
