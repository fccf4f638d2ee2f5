-- ===== src/Logging/Laws.antt =====
-- What the lock on the output keeps.
use nawa.Common.{
  ℕ, suc, ◌+◌, ◌-◌, ◌%◌, ◌^◌, ◌<◌, ◌≡◌, refl, sym, ◌∙◌, arith, Bool, true, false, List, [], ◌∷◌,
  ◌==◌, length, Bytes,
}
use nawa.Logging.{
  Level, Target, LogState, new_log, drop_log, set_stream, set_outfile, set_output_level,
  set_extended_format, lock_stream, more_instances,
}

-- What a program can do to the state that the objects share, before its end.
pub data Action : Type 0 where
  set_stream_to : Target → Action
  set_outfile_to : Bytes → Action
  set_level_to : Level → Action
  set_format_to : Bool → Action
  lock make copy assign_other drop : Action

module _ (opens : Bytes → Bool) where
  unfoldable pub act : Action → LogState → LogState
  act (set_stream_to target) log = set_stream target log
  act (set_outfile_to filename) log = (set_outfile opens filename log).0
  act (set_level_to level) log = set_output_level level log
  act (set_format_to format) log = set_extended_format format log
  act lock log = lock_stream log
  act make log = (new_log log).0
  act copy log = more_instances log
  act assign_other log = more_instances log
  act drop log = drop_log false log

  unfoldable pub act_all : List Action → LogState → LogState
  act_all [] log = log
  act_all (a ∷ actions) log = act_all actions (act a log)

  unfoldable pub drops : List Action → ℕ
  drops [] = 0
  drops (set_stream_to target ∷ actions) = drops actions
  drops (set_outfile_to filename ∷ actions) = drops actions
  drops (set_level_to level ∷ actions) = drops actions
  drops (set_format_to format ∷ actions) = drops actions
  drops (lock ∷ actions) = drops actions
  drops (make ∷ actions) = drops actions
  drops (copy ∷ actions) = drops actions
  drops (assign_other ∷ actions) = drops actions
  drops (drop ∷ actions) = suc (drops actions)

  abbrev pub Kept : LogState → LogState → Type 0
  Kept a b =
      (b.locked ≡ a.locked)
      × (b.out ≡ a.out)
      × (b.open_file ≡ a.open_file)
      × (b.output_level ≡ a.output_level)
      × (b.extended_format ≡ a.extended_format)

  Kept-trans : (a b c : LogState) → Kept a b → Kept b c → Kept a c
  Kept-trans a b c (l, o, f, v, e) (l', o', f', v', e') = (l' ∙ l, o' ∙ o, f' ∙ f, v' ∙ v, e' ∙ e)

  -- An action on a locked state that is not left without an object.
  act-Kept :
      (a : Action) (log : LogState) (left n : ℕ)
      → log.locked ≡ true
      → drops (a ∷ []) + left < log.instance_count
      → log.instance_count + suc n < 2 ^ 32
      → Kept log (act a log)
        × (left < (act a log).instance_count)
        × ((act a log).instance_count + n < 2 ^ 32)
  unfolding act drops set_stream set_outfile set_output_level set_extended_format lock_stream
      new_log more_instances drop_log
  act-Kept (set_stream_to target) log left n l d s =
      rw (l, set_stream) ((refl, refl, refl, refl, refl), omega (arith, d), omega (arith, s))
  act-Kept (set_outfile_to filename) log left n l d s =
      rw (l, set_outfile) ((refl, refl, refl, refl, refl), omega (arith, d), omega (arith, s))
  act-Kept (set_level_to level) log left n l d s =
      rw (l, set_output_level) ((refl, refl, refl, refl, refl), omega (arith, d), omega (arith, s))
  act-Kept (set_format_to format) log left n l d s =
      rw (l, set_extended_format)
        ((refl, refl, refl, refl, refl), omega (arith, d), omega (arith, s))
  act-Kept lock log left n l d s =
      ((sym l, refl, refl, refl, refl), omega (arith, d), omega (arith, s))
  act-Kept make log left n l d s =
      let there : (log.instance_count == 0) ≡ false = ground arith in
      rw (there, new_log) ((refl, refl, refl, refl, refl), omega (arith, d, s), omega (arith, s))
  act-Kept copy log left n l d s =
      ((refl, refl, refl, refl, refl), omega (arith, d, s), omega (arith, s))
  act-Kept assign_other log left n l d s =
      ((refl, refl, refl, refl, refl), omega (arith, d, s), omega (arith, s))
  act-Kept drop log left n l d s =
      let fewer : (log.instance_count + (2 ^ 32 - 1)) % 2 ^ 32 ≡ log.instance_count - 1 =
        omega (arith, d, s) in
      let rest : (log.instance_count - 1 == 0) ≡ false = ground arith in
      rw (fewer, rest, drop_log)
        ((refl, refl, refl, refl, refl), omega (arith, d), omega (arith, d, s))

  drops-cons :
      (a : Action) (actions : List Action) → drops (a ∷ actions) ≡ drops (a ∷ []) + drops actions
  unfolding drops
  drops-cons (set_stream_to target) actions = omega arith
  drops-cons (set_outfile_to filename) actions = omega arith
  drops-cons (set_level_to level) actions = omega arith
  drops-cons (set_format_to format) actions = omega arith
  drops-cons lock actions = omega arith
  drops-cons make actions = omega arith
  drops-cons copy actions = omega arith
  drops-cons assign_other actions = omega arith
  drops-cons drop actions = omega arith

  -- A locked output stays as it is, with its level and its format, whatever is set, and whichever
  -- objects are made, copied, assigned or destroyed, while fewer are destroyed than there are.
  pub act_all-Kept :
      (actions : List Action) (log : LogState)
      → log.locked ≡ true
      → drops actions < log.instance_count
      → log.instance_count + length actions < 2 ^ 32
      → Kept log (act_all actions log)
  unfolding act_all
  act_all-Kept [] log l d s = (refl, refl, refl, refl, refl)
  act_all-Kept (a ∷ actions) log l d s =
      let (kept, more, small) =
        act-Kept a log (drops actions) (length actions) l (omega (arith, d, drops-cons a actions))
          (omega (arith, s)) in
      Kept-trans log (act a log) (act_all actions (act a log)) kept
        (act_all-Kept actions (act a log) (kept.0 ∙ l) more small)
