-- ===== src/Client/CommandInterpreter/Effects.antt =====
-- What the command interpreter does to the driver: nothing, until the end of Start.
use hid_hide.Prelude.{
  is_empty, ◌≡◌, ◌⊎◌, refl, ◌∙◌, Bool, true, false, not, ◌&&◌, ◌||◌, Option, none, some, List, [],
  ◌∷◌, ◌++◌, if◌then◌else◌, WideString, Bool-cases, inl, inr,
}
use hid_hide.Client.CliParsing.{Args, extract_commands}
use hid_hide.Client.DriverAccess.{Device, done, thrown, and_then}
use hid_hide.Client.FilterDriverProxy.Changes.{
  Change, to_active, to_inverse, hide, unhide, register, unregister, perform, perform_cached,
}
use hid_hide.Client.Volume.{after, full_image_name_to_file_name}
use hid_hide.Client.Commands.{
  CommandId, app_list_id, app_reg_id, app_unreg_id, app_clean_id, inv_off_id, inv_on_id,
  inv_state_id, cancel_id, cloak_off_id, cloak_on_id, cloak_state_id, cloak_toggle_id, dev_all_id,
  dev_gaming_id, dev_hide_id, dev_list_id, dev_unhide_id, help_id, version_id, Platform,
  Interpreter, Step, print, call, from, version, cancel, app_clean_loop, app_clean, app_reg,
  app_unreg, app_list_loop, app_list, dev_hide, dev_unhide, dev_list_loop, dev_list, dev_print,
  cloak, cloak_toggle, cloak_state, inv, inv_state,
}
use hid_hide.Client.CommandInterpreter.{
  registered_commands, find_command, validate, help, execute, keyword_of, execute_found,
  execute_command, execute_commands, run_line, apply, prompt, start_loop, start,
}

module _ (h : Platform) (d : Device) where
  -- The driver is as it was in `w`, and the proxy does not write through.
  abbrev pub IsCached : d.World → Interpreter h d → Type 0
  IsCached w s = (s.world ≡ w) × (s.proxy.write_through ≡ false)

  IsCached-and_then :
      {A B : Type 0} (w : d.World) (r : Step h d A) (next : A → Interpreter h d → Step h d B)
      → IsCached w r.1
      → ((a : A) (s : Interpreter h d) → IsCached w s → IsCached w (next a s).1)
      → IsCached w (and_then r next).1
  unfolding and_then
  IsCached-and_then w (thrown, s) next k f = k
  IsCached-and_then w (done a, s) next k f = f a s k

  IsCached-if :
      {A : Type 0} (w : d.World) (b : Bool) (x y : Step h d A)
      → IsCached w x.1
      → IsCached w y.1
      → IsCached w (if b then x else y).1
  IsCached-if w true x y k l = k
  IsCached-if w false x y k l = l

  IsCached-call :
      (c : Change) (w : d.World) (s : Interpreter h d)
      → IsCached w s
      → IsCached w (call h d (perform d h.volumes.compare_path c s.proxy s.world) s).1
  IsCached-call c w s (e, k) =
      let (ended, same, through) = perform_cached d h.volumes.compare_path c s.proxy s.world k in
      (same ∙ e, through)

  app_clean_loop-IsCached :
      (names : List WideString) (w : d.World) (s : Interpreter h d)
      → IsCached w s
      → IsCached w (app_clean_loop h d names s).1
  unfolding app_clean_loop
  app_clean_loop-IsCached [] w s k = k
  app_clean_loop-IsCached (name ∷ names) w s k =
      IsCached-and_then w
        (from h d (after (full_image_name_to_file_name h.volumes name) h.exists) s) _ k
        (λ found s' k'.
          IsCached-and_then w _ _
            (IsCached-if w (not found) _ _ (IsCached-call (unregister name) w s' k') k')
            (λ u s'' k''. app_clean_loop-IsCached names w s'' k''))

  app_list_loop-IsCached :
      (names : List WideString) (w : d.World) (s : Interpreter h d)
      → IsCached w s
      → IsCached w (app_list_loop h d names s).1
  unfolding app_list_loop
  app_list_loop-IsCached [] w s k = k
  app_list_loop-IsCached (name ∷ names) w s k =
      IsCached-and_then w (from h d (full_image_name_to_file_name h.volumes name) s) _ k
        (λ file s' k'.
          IsCached-and_then w (print h d _ s') _ k'
            (λ u s'' k''. app_list_loop-IsCached names w s'' k''))

  dev_list_loop-IsCached :
      (names : List WideString) (w : d.World) (s : Interpreter h d)
      → IsCached w s
      → IsCached w (dev_list_loop h d names s).1
  unfolding dev_list_loop
  dev_list_loop-IsCached [] w s k = k
  dev_list_loop-IsCached (name ∷ names) w s k =
      IsCached-and_then w (print h d _ s) _ k (λ u s' k'. dev_list_loop-IsCached names w s' k')

  execute-IsCached :
      (id : CommandId) (args : Args) (w : d.World) (s : Interpreter h d)
      → IsCached w s
      → IsCached w (execute h d id args s).1
  unfolding execute help version cancel app_clean app_reg app_unreg app_list dev_hide dev_unhide
      dev_list dev_print cloak cloak_toggle cloak_state inv inv_state
  execute-IsCached app_list_id args w s k = app_list_loop-IsCached s.proxy.whitelist w s k
  execute-IsCached app_reg_id args w s k =
      IsCached-and_then w (from h d _ s) _ k (λ name s' k'. IsCached-call (register name) w s' k')
  execute-IsCached app_unreg_id args w s k =
      IsCached-and_then w (from h d _ s) _ k (λ name s' k'. IsCached-call (unregister name) w s' k')
  execute-IsCached app_clean_id args w s k = app_clean_loop-IsCached s.proxy.whitelist w s k
  execute-IsCached inv_off_id args w s k = IsCached-call (to_inverse false) w s k
  execute-IsCached inv_on_id args w s k = IsCached-call (to_inverse true) w s k
  execute-IsCached inv_state_id args w s k = k
  execute-IsCached cancel_id args w s k = k
  execute-IsCached cloak_off_id args w s k = IsCached-call (to_active false) w s k
  execute-IsCached cloak_on_id args w s k = IsCached-call (to_active true) w s k
  execute-IsCached cloak_state_id args w s k = k
  execute-IsCached cloak_toggle_id args w s k = IsCached-call (to_active (not s.proxy.active)) w s k
  execute-IsCached dev_all_id args w s k = IsCached-and_then w (from h d _ s) _ k (λ text s' k'. k')
  execute-IsCached dev_gaming_id args w s k =
      IsCached-and_then w (from h d _ s) _ k (λ text s' k'. k')
  execute-IsCached dev_hide_id args w s k =
      IsCached-and_then w (from h d _ s) _ k (λ path s' k'. IsCached-call (hide path) w s' k')
  execute-IsCached dev_list_id args w s k = dev_list_loop-IsCached s.proxy.blacklist w s k
  execute-IsCached dev_unhide_id args w s k =
      IsCached-and_then w (from h d _ s) _ k (λ path s' k'. IsCached-call (unhide path) w s' k')
  execute-IsCached help_id args w s k = k
  execute-IsCached version_id args w s k = k

  execute_found-IsCached :
      (o : Option CommandId) (command : Args) (w : d.World) (s : Interpreter h d)
      → IsCached w s
      → IsCached w (execute_found h d o command s).1
  unfolding execute_found
  execute_found-IsCached none command w s k = k
  execute_found-IsCached (some id) command w s k =
      IsCached-and_then w (from h d (validate h id command) s) _ k (λ result s' k'.
        IsCached-if w (is_empty result) _ _
          (IsCached-and_then w (execute h d id command s') _ (execute-IsCached id command w s' k')
            (λ u s'' k''. k''))
          k')

  execute_command-IsCached :
      (command : Args) (w : d.World) (s : Interpreter h d)
      → IsCached w s
      → IsCached w (execute_command h d command s).1
  unfolding execute_command
  execute_command-IsCached command w s k =
      IsCached-and_then w (from h d (keyword_of h d command) s) _ k (λ keyword s' k'.
        execute_found-IsCached (find_command keyword registered_commands) command w s' k')

  execute_commands-IsCached :
      (commands : List Args) (w : d.World) (s : Interpreter h d)
      → IsCached w s
      → IsCached w (execute_commands h d commands s).1
  unfolding execute_commands
  execute_commands-IsCached [] w s k = k
  execute_commands-IsCached (command ∷ commands) w s k =
      IsCached-and_then w (execute_command h d command s) _ (execute_command-IsCached command w s k)
        (λ result s' k'.
          IsCached-if w (is_empty result) _ _ (execute_commands-IsCached commands w s' k') k')

  run_line-IsCached :
      (o : Option (List Args × WideString)) (w : d.World) (s : Interpreter h d)
      → IsCached w s
      → IsCached w (run_line h d o s).1
  unfolding run_line
  run_line-IsCached none w s k = k
  run_line-IsCached (some (commands, [])) w s k = execute_commands-IsCached commands w s k
  run_line-IsCached (some (commands, x ∷ line)) w s k = k

  -- The driver is as it was, or the function has ended with ApplyConfigurationChanges on a state
  -- that was not cancelled and that nothing of it had reached the driver before.
  abbrev pub IsDeferred : d.World → Step h d Unit → Type 0
  IsDeferred w r =
      (r.1.world ≡ w)
      ⊎ ((s : Interpreter h d) × IsCached w s × (s.cancel ≡ false) × (r ≡ apply h d s))

  IsDeferred-and_then :
      {A : Type 0} (w : d.World) (r : Step h d A) (next : A → Interpreter h d → Step h d Unit)
      → IsCached w r.1
      → ((a : A) (s : Interpreter h d) → IsCached w s → IsDeferred w (next a s))
      → IsDeferred w (and_then r next)
  unfolding and_then
  IsDeferred-and_then w (thrown, s) next k f = inl k.0
  IsDeferred-and_then w (done a, s) next k f = f a s k

  prompt-IsCached :
      (interactive : Bool) (w : d.World) (s : Interpreter h d)
      → IsCached w s
      → IsCached w (prompt h d interactive s)
  prompt-IsCached true w s k = k
  prompt-IsCached false w s k = k

  applied :
      (interactive : Bool) (w : d.World) (s : Interpreter h d)
      → IsCached w s
      → s.cancel ≡ false
      → IsDeferred w (apply h d (prompt h d interactive s))
  applied true w s k c = inr (prompt h d true s, k, c, refl)
  applied false w s k c = inr (s, k, c, refl)

  -- The two early returns of the loop of Start.
  IsDeferred-return :
      (failed : Bool) (w : d.World) (s : Interpreter h d) (r : Step h d Unit)
      → IsCached w s
      → (s.cancel ≡ false → IsDeferred w r)
      → IsDeferred w
          (if failed then from h d (done tt) s else (if s.cancel then from h d (done tt) s else r))
  IsDeferred-return true w s r k f = inl k.0
  IsDeferred-return false w s r k f = elim (Bool-cases s.cancel) [
    | inl c ↦ inl (rw c k.0)
    | inr c ↦ rw c (f c)
  ]

  start_loop-IsDeferred :
      (interactive script : Bool) (line : WideString) (lines : List WideString) (w : d.World)
      (s : Interpreter h d)
      → IsCached w s
      → IsDeferred w (start_loop h d interactive script line lines s)
  unfolding start_loop
  start_loop-IsDeferred interactive script line [] w s k =
      IsDeferred-and_then w (run_line h d (extract_commands h.is_space line) s) _
        (run_line-IsCached (extract_commands h.is_space line) w s k)
        (λ message s' k'.
          IsDeferred-return (not (is_empty message) && not interactive) w s'
            (apply h d (prompt h d interactive s')) k' (applied interactive w s' k'))
  start_loop-IsDeferred interactive script line (next ∷ lines) w s k =
      IsDeferred-and_then w (run_line h d (extract_commands h.is_space line) s) _
        (run_line-IsCached (extract_commands h.is_space line) w s k)
        (λ message s' k'.
          IsDeferred-return (not (is_empty message) && not interactive) w s' _ k' (λ c.
            goes_on interactive script s' k' c (
              start_loop-IsDeferred interactive script next lines w (prompt h d interactive s')
                (prompt-IsCached interactive w s' k'))))
    where
      goes_on :
          (interactive script : Bool) (s' : Interpreter h d) {r : Step h d Unit}
          → IsCached w s'
          → s'.cancel ≡ false
          → IsDeferred w r
          → IsDeferred w (if interactive || script then r else apply h d s')
      goes_on true script s' k' c i = i
      goes_on false true s' k' c i = i
      goes_on false false s' k' c i = inr (s', k', c, refl)

  -- Start on a proxy without write-through, whatever the lines, the errors and the exceptions:
  -- either the driver is as it was, or the last thing that was done is ApplyConfigurationChanges,
  -- on a state that was not cancelled and with the driver as it was.
  pub start-IsDeferred :
      (interactive script : Bool) (line : WideString) (lines : List WideString)
      (s : Interpreter h d)
      → s.proxy.write_through ≡ false
      → IsDeferred s.world (start h d interactive script line lines s)
  unfolding start
  start-IsDeferred true script line lines s k =
      start_loop-IsDeferred true script line lines s.world _ (refl, k)
  start-IsDeferred false script line lines s k =
      start_loop-IsDeferred false script line lines s.world s (refl, k)

  -- A sequence of commands runs its front and then, unless that ended with an error message or an
  -- exception, its rest.
  pub execute_commands-append :
      (commands rest : List Args) (s : Interpreter h d)
      → execute_commands h d (commands ++ rest) s
        ≡ and_then (execute_commands h d commands s) (λ message s'.
          if is_empty message then execute_commands h d rest s' else (done message, s'))
  unfolding execute_commands and_then
  execute_commands-append [] rest s = refl
  execute_commands-append (command ∷ commands) rest s =
      first (execute_command h d command s) (λ s'. execute_commands-append commands rest s')
    where
      first :
          (r : Step h d WideString)
          → ((s' : Interpreter h d)
              → execute_commands h d (commands ++ rest) s'
                ≡ and_then (execute_commands h d commands s') (λ message s''.
                  if is_empty message then execute_commands h d rest s'' else (done message, s'')))
          → and_then r (λ result s'.
            if is_empty result
            then execute_commands h d (commands ++ rest) s'
            else from h d (done result) s')
            ≡ and_then
                (and_then r (λ result s'.
                  if is_empty result
                  then execute_commands h d commands s'
                  else from h d (done result) s'))
                (λ message s'.
                  if is_empty message then execute_commands h d rest s' else (done message, s'))
      first (thrown, s') f = refl
      first (done [], s') f = f s'
      first (done (x ∷ result), s') f = refl
