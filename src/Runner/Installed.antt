-- ===== src/Runner/Installed.antt =====
-- internal/runner/executor.go, resolveInterpreter: every environment in the cache is completely installed.
use crawler_lite.Prelude.Base.{
  ap, ◌≡◌, ◌≢◌, refl, sym, ◌∙◌, ◌⊎◌, inl, inr, true, false, Bool-cases, none, some, ℕ, List,
}
use crawler_lite.Prelude.Text.{codes, Str, Unicode, is_empty, str_eq, str_eq_iff}
use mathlib.Core.Path.{subst}
use mathlib.Core.Bool.{false≢true}
use crawler_lite.Prelude.Path.{join}
use crawler_lite.Result.{Error, Result, ok, err}
use crawler_lite.Hub.Model.{WorkerMsg}
use crawler_lite.Runner.Interpreter.{
  ReadFile, content, not_exist, unreadable, OutputLine, UvRun, no_pipe, no_start, exited, Tools,
  TaskExecutor, State, python_in, venv_of, venv_args, install_args, run_uv_streamed, discard,
  sanity_check, installed, install_into, make_venv, find_or_make, resolve_read, resolve_interpreter,
  streamed,
}

-- `Complete p os`: the environment of the interpreter `p` has everything that its last installation asks for.
module _ {Os : Type 0} (tools : Tools Os) (c : TaskExecutor) (Complete : Str → Os → Type 0) where
  -- The environment of some requirements, and its interpreter.
  abbrev pub venv_for : Str → Str
  venv_for bytes = venv_of c.venv_dir (tools.sha256_hex bytes)

  abbrev pub python_for : Str → Str
  python_for bytes = python_in (venv_for bytes)

  -- Of all environments but that of one interpreter, nothing changes for the worse.
  abbrev pub Elsewhere : Str → Os → Os → Type 0
  Elsewhere p os os' =
      (b : Str)
      → python_for b ≢ p
      → (tools.stat_ok (python_for b) os' ≡ tools.stat_ok (python_for b) os)
        × (Complete (python_for b) os → Complete (python_for b) os')

  -- What the calls do: a new parent directory changes no environment; uv and RemoveAll touch the
  -- environment that they are told, and no other; an installation by uv that exits without an error is
  -- complete; and RemoveAll removes the interpreter where it answers no error.
  pub record Lawful : Type 0 where
    pub mkdir_apart :
        (b : Str) (os : Os)
        → let os' = (tools.mkdir_all c.venv_dir os).1 in
          (tools.stat_ok (python_for b) os' ≡ tools.stat_ok (python_for b) os)
          × (Complete (python_for b) os → Complete (python_for b) os')
    pub venv_apart :
        (a : Str) (os : Os)
        → Elsewhere (python_for a) os (tools.run_uv (venv_args (venv_for a) c.py_path) os).1
    pub install_apart :
        (a req_path : Str) (os : Os)
        → Elsewhere
            (python_for a)
            os
            (tools.run_uv (install_args (python_for a) req_path c.crawlerkit_path) os).1
    pub install_done :
        (a req_path : Str) (os : Os) (lines : List OutputLine)
        → (tools.run_uv (install_args (python_for a) req_path c.crawlerkit_path) os).0
          ≡ exited lines none
        → Complete
            (python_for a)
            (tools.run_uv (install_args (python_for a) req_path c.crawlerkit_path) os).1
    pub remove_apart :
        (a : Str) (os : Os) → Elsewhere (python_for a) os (tools.remove_all (venv_for a) os).1
    pub remove_gone :
        (a : Str) (os : Os)
        → (tools.remove_all (venv_for a) os).0 ≡ ok tt
        → tools.stat_ok (python_for a) (tools.remove_all (venv_for a) os).1 ≡ false

  -- An interpreter that is there is completely installed.
  abbrev pub AllComplete : Os → Type 0
  AllComplete os = (b : Str) → tools.stat_ok (python_for b) os ≡ true → Complete (python_for b) os

  -- The same of all environments but one.
  abbrev pub OthersComplete : Str → Os → Type 0
  OthersComplete a os =
      (b : Str)
      → python_for b ≢ python_for a
      → tools.stat_ok (python_for b) os ≡ true
      → Complete (python_for b) os

  others_keep :
      (a : Str) (os os' : Os)
      → OthersComplete a os
      → Elsewhere (python_for a) os os'
      → OthersComplete a os'
  others_keep a os os' h e b ne there = (e b ne).1 (h b ne (sym ((e b ne).0) ∙ there))

  same_or_not : (p q : Str) → (p ≡ q) ⊎ (p ≢ q)
  same_or_not p q = elim (Bool-cases (str_eq p q)) [
    | inl t ↦ inl ((str_eq_iff p q).0 t)
    | inr f ↦ inr (λ e. false≢true (sym f ∙ (str_eq_iff p q).1 e))
  ]

  with_one :
      (a : Str) (os : Os)
      → OthersComplete a os
      → (tools.stat_ok (python_for a) os ≡ true → Complete (python_for a) os)
      → AllComplete os
  with_one a os h k b there = elim (same_or_not (python_for b) (python_for a)) [
    | inl e ↦
        subst (λ p. Complete p os) (sym e) (k (subst (λ p. tools.stat_ok p os ≡ true) e there))
    | inr ne ↦ h b ne there
  ]

  ok-injective : {p q : Str} → ok p ≡ ok q → p ≡ q
  ok-injective e = cc

  -- RemoveAll answered an error, which left `os'`; the other environments are complete.
  abbrev pub LeftOver : Str → Os → Type 0
  LeftOver a os' =
      OthersComplete a os'
      × ((os : Os) × (e : Error) × (tools.remove_all (venv_for a) os ≡ (err e, os')))

  -- All environments are complete, or the removal of one failed, and the resolution with it.
  abbrev pub AfterFailure : Str → Result Str × State Os → Type 0
  AfterFailure a (r, s) = AllComplete s.os ⊎ (LeftOver a s.os × ((e : Error) × (r ≡ err e)))

  -- A resolution's end: all environments are complete, or the removal of the one failed; and an interpreter that it gives is the
  -- system's, or it is there and complete.
  abbrev Good : Str → Result Str × State Os → Type 0
  Good a (r, s) =
      AfterFailure a (r, s) × ((p : Str) → r ≡ ok p → (p ≡ python_for a) × Complete p s.os)

  discard-Good :
      Lawful
      → (a : Str) (e : Error) (s : State Os) → OthersComplete a s.os
      → Good a (discard tools (venv_for a) e s)
  discard-Good l a e s h = (removed_or_not (tools.remove_all (venv_for a) s.os) refl, λ p q. cc)
    where
      others : OthersComplete a (tools.remove_all (venv_for a) s.os).1
      others = others_keep a s.os (tools.remove_all (venv_for a) s.os).1 h (l.remove_apart a s.os)

      removed_or_not :
          (x : Result (Unit {0}) × Os)
          → tools.remove_all (venv_for a) s.os ≡ x
          → AfterFailure a (discard tools (venv_for a) e s)
      removed_or_not (ok _, os) q = inl (
          with_one a (tools.remove_all (venv_for a) s.os).1 others
            (λ there. absurd (false≢true (sym (l.remove_gone a s.os (ap (λ x. x.0) q)) ∙ there))))
      removed_or_not (err f, os) q =
          inr ((others, (s.os, f, q ∙ ap (λ o. (err f, o)) (sym (ap (λ x. x.1) q)))), (e, refl))

  sanity_check-Good :
      Lawful
      → (a : Str) (s : State Os) → OthersComplete a s.os
      → Complete (python_for a) s.os
      → Good a (sanity_check tools (venv_for a) (python_for a) s)
  sanity_check-Good l a s h k = elim (Bool-cases (tools.stat_ok (python_for a) s.os)) [
    | inl there ↦ rw there (
      inl (with_one a s.os h (λ _. k)),
      λ p q. (sym (ok-injective q), subst (λ i. Complete i s.os) (ok-injective q) k),
    )
    | inr gone ↦ rw gone (discard-Good l a _ s h)
  ]

  -- A run of uv leaves the operating system that it answers with, and succeeds only where uv exits
  -- without an error.
  streamed_lem :
      (u : Unicode) (task : ℕ) (args : List Str) (sent : List WorkerMsg) (x : UvRun × Os)
      → let y = streamed tools u task args sent x in
        (y.1.os ≡ x.1) × (y.0 ≡ ok tt → (lines : List OutputLine) × (x.0 ≡ exited lines none))
  streamed_lem u task args sent (no_pipe e, os) = (refl, λ q. cc)
  streamed_lem u task args sent (no_start e, os) = (refl, λ q. cc)
  streamed_lem u task args sent (exited lines none, os) = (refl, λ q. (lines, refl))
  streamed_lem u task args sent (exited lines (some e), os) = (refl, λ q. cc)

  installed-Good :
      Lawful
      → (a : Str) (r : Result (Unit {0})) (s : State Os) → OthersComplete a s.os
      → (r ≡ ok tt → Complete (python_for a) s.os)
      → Good a (installed tools (venv_for a) (python_for a) (r, s))
  installed-Good l a (err e) s h k = discard-Good l a e s h
  installed-Good l a (ok tt) s h k = sanity_check-Good l a s h (k refl)

  install_into-Good :
      Lawful
      → (a req_path : Str) (u : Unicode) (task : ℕ) (r : Result (Unit {0})) (s : State Os)
      → OthersComplete a s.os
      → Good a (install_into tools u c task (venv_for a) req_path (r, s))
  unfolding install_into run_uv_streamed
  install_into-Good l a req_path u task (err e) s h = discard-Good l a e s h
  install_into-Good l a req_path u task (ok _) s h =
      let args = install_args (python_for a) req_path c.crawlerkit_path in
      let x = tools.run_uv args s.os in
      let f = streamed_lem u task args s.sent x in
      let y = streamed tools u task args s.sent x in
      installed-Good l a (y.0) (y.1)
        (rw (f.0) (others_keep a s.os (x.1) h (l.install_apart a req_path s.os)))
        (λ q. rw (f.0) (l.install_done a req_path s.os ((f.1 q).0) ((f.1 q).1)))

  make_venv-Good :
      Lawful
      → (a req_path : Str) (u : Unicode) (task : ℕ) (r : Result (Unit {0})) (os : Os)
        (sent : List WorkerMsg)
      → AllComplete os
      → Good a (make_venv tools u c task (venv_for a) req_path (r, os) sent)
  unfolding make_venv run_uv_streamed
  make_venv-Good l a req_path u task (err e) os sent h = (inl h, λ p q. cc)
  make_venv-Good l a req_path u task (ok _) os sent h =
      let args = venv_args (venv_for a) c.py_path in
      let x = tools.run_uv args os in
      let f = streamed_lem u task args sent x in
      let y = streamed tools u task args sent x in
      install_into-Good l a req_path u task (y.0) (y.1)
        (rw (f.0) (others_keep a os (x.1) (λ b _. h b) (l.venv_apart a os)))

  find_or_make-Good :
      Lawful
      → (a req_path : Str) (u : Unicode) (task : ℕ) (s : State Os) → AllComplete s.os
      → Good a (find_or_make tools u c task (venv_for a) req_path s)
  unfolding find_or_make
  find_or_make-Good l a req_path u task s h =
      elim (Bool-cases (tools.stat_ok (python_for a) s.os)) [
        | inl there ↦ rw there (
          inl h,
          λ p q. (sym (ok-injective q), subst (λ i. Complete i s.os) (ok-injective q) (h a there)),
        )
        | inr gone ↦ rw gone (
            make_venv-Good l a req_path u task (tools.mkdir_all c.venv_dir s.os).0
              (tools.mkdir_all c.venv_dir s.os).1 _
              (λ b there. (l.mkdir_apart b s.os).1 (h b (sym ((l.mkdir_apart b s.os).0) ∙ there))))
      ]

  -- What an interpreter that resolveInterpreter gives is, where ReadFile answers `file`.
  abbrev pub Given : ReadFile → Os → Str → Type 0
  Given file os p =
      (p ≡ c.py_path)
      ⊎ ((bytes : Str) × (file ≡ content bytes) × (p ≡ python_for bytes) × Complete p os)

  -- The environments behind resolveInterpreter, where ReadFile answers `file`.
  abbrev pub Ended : ReadFile → Result Str × State Os → Type 0
  Ended file (r, s) =
      AllComplete s.os
      ⊎ ((bytes : Str) × (file ≡ content bytes) × LeftOver bytes s.os × ((e : Error) × (r ≡ err e)))

  found_end :
      (bytes : Str) (x : Result Str × State Os) → AfterFailure bytes x → Ended (content bytes) x
  found_end bytes (r, s) (inl h) = inl h
  found_end bytes (r, s) (inr (left, f)) = inr (bytes, refl, left, f)

  resolve_read_lem :
      Lawful
      → (file : ReadFile) (u : Unicode) (task : ℕ) (req_path : Str) (s : State Os)
      → AllComplete s.os
      → let (r, s') = resolve_read tools u c task req_path file s in
        Ended file (r, s') × ((p : Str) → r ≡ ok p → Given file s'.os p)
  unfolding resolve_read
  resolve_read_lem l not_exist u task req_path s h = (inl h, λ p q. inl (sym (ok-injective q)))
  resolve_read_lem l (unreadable e) u task req_path s h = (inl h, λ p q. cc)
  resolve_read_lem l (content bytes) u task req_path s h = elim (Bool-cases (is_empty c.uv_path)) [
    | inl without ↦ rw without (inl h, λ p q. inl (sym (ok-injective q)))
    | inr with_uv ↦
        let good = find_or_make-Good l bytes req_path u task s h in
        rw with_uv (
          found_end bytes (find_or_make tools u c task (venv_for bytes) req_path s) (good.0),
          λ p q. inr (bytes, refl, (good.1 p q).0, (good.1 p q).1),
        )
  ]

  -- Whatever fails in resolveInterpreter, and wherever uv stops: if every interpreter in the cache of
  -- environments is completely installed before, it is after, or resolveInterpreter answers an error, the
  -- removal of the environment of the requirements' content answered an error as well, and every other
  -- interpreter is completely installed. An interpreter that is the answer is the system's, or that of
  -- the environment of the requirements' content, completely installed. The
  -- conditions are that MkdirAll and RemoveAll do what they document, that uv touches no environment but
  -- the one that it is told, and that an installation by uv that exits without an error is complete.
  pub resolve_lem :
      (u : Unicode) (task : ℕ) (dir : Str) (s : State Os)
      → Lawful
      → AllComplete s.os
      → let (r, s') = resolve_interpreter tools u c task dir s in
        Ended (tools.read_file (join dir (codes "requirements.txt")) s.os) (r, s')
        × ((p : Str)
            → r ≡ ok p
            → Given (tools.read_file (join dir (codes "requirements.txt")) s.os) s'.os p)
  unfolding resolve_interpreter
  resolve_lem u task dir s l h =
      let req_path = join dir (codes "requirements.txt") in
      resolve_read_lem l (tools.read_file req_path s.os) u task req_path s h
