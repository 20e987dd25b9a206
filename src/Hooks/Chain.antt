-- ===== src/Hooks/Chain.antt =====
-- hooksqfs.c, the condition of install_hooks: which functions it gives to funchook.
use hooksqfs.Base.{
  ℕ, ◌≡◌, ◌≢◌, sym, ap, ◌∙◌, Bool, true, false, not, List, [], ◌∷◌, ◌++◌, ◌==◌, arith,
  if◌then◌else◌, append_assoc,
}
use hooksqfs.Env.{Env}
use hooksqfs.Manager.{State}
use hooksqfs.Hooks.Functions.{
  LibcFunctions, Symbol, open_symbol, read_symbol, pread_symbol, pread64_symbol, lseek_symbol,
  lseek64_symbol, close_symbol, close_nocancel_symbol, opendir_symbol, readdir_symbol,
  closedir_symbol, access_symbol, xstat_symbol, pointer, set_pointer,
}
use hooksqfs.Hooks.Install.{
  Prepared, Loader, Process, P, outside, after_funchook_prepare, go_on, hook, hook_if,
  close_nocancel_differs, hook_all,
}
use hooksqfs.Hooks.Preparing.{if-both}

-- __close_nocancel, unless it is close.
abbrev pub apart_from_close : LibcFunctions → List (Symbol × ℕ)
apart_from_close f =
    if f.close_nocancel == 0
    then []
    else if f.close_nocancel == f.close
    then []
    else (close_nocancel_symbol, f.close_nocancel) ∷ []

abbrev last_hooks : LibcFunctions → List (Symbol × ℕ)
last_hooks f =
    (opendir_symbol, f.opendir)
    ∷ (readdir_symbol, f.readdir)
    ∷ (closedir_symbol, f.closedir)
    ∷ (access_symbol, f.access)
    ∷ (xstat_symbol, f.xstat)
    ∷ []

abbrev first_hooks : LibcFunctions → List (Symbol × ℕ)
first_hooks f =
    (open_symbol, f.open_func)
    ∷ (read_symbol, f.read)
    ∷ (pread_symbol, f.pread)
    ∷ (lseek_symbol, f.lseek)
    ∷ (pread64_symbol, f.pread64)
    ∷ (lseek64_symbol, f.lseek64)
    ∷ (close_symbol, f.close)
    ∷ []

-- Every function, in order, pread64 and lseek64 even if they are pread and lseek.
abbrev pub every_hook : LibcFunctions → List (Symbol × ℕ)
every_hook f = first_hooks f ++ apart_from_close f ++ last_hooks f

module _ (e : Env) (l : Loader e.World) where
  -- What the documentation of funchook says of a prepared target: it is new code, and so none of these
  -- two functions.
  pub record Trampolines (f : LibcFunctions) : Type 0 where
    pub is_new :
        (symbol : Symbol) (func : ℕ) (w : e.World)
        → let target = (l.funchook_prepare symbol func w).value.target in
          (target ≢ f.pread64) × (target ≢ f.lseek64)

  module _ (f : LibcFunctions) (t : Trampolines f) (xs : List (Symbol × ℕ)) where
    abbrev pub Gives : Bool × Process e → Type 0
    Gives (ok, q) = ok ≡ true → q.prepared ≡ xs

    -- A hook that was prepared.
    abbrev with_target : Symbol → ℕ → State e → Process e → Process e
    with_target symbol target s p = record p {
      manager = s;
      g_x_libc_funcs = set_pointer symbol target p.g_x_libc_funcs;
      prepared = p.prepared ++ (symbol, pointer symbol p.g_x_libc_funcs) ∷ [];
    }

    after_prepare-Gives :
        (symbol : Symbol) (next : P e Bool) (r : Prepared) (p : Process e)
        → Gives (next (with_target symbol r.target p.manager p))
        → let a = after_funchook_prepare e l symbol (pointer symbol p.g_x_libc_funcs) r p in
          Gives (go_on e l next a.0 a.1)
    after_prepare-Gives symbol next r p k =
        if-both (λ (a : Bool × Process e). Gives (go_on e l next a.0 a.1)) r.ok _ _ (λ b. k)
          (λ b h. ground arith)

    hook-Gives :
        (symbol : Symbol) (next : P e Bool) (p : Process e)
        → ((target : ℕ) (s : State e)
            → (target ≢ f.pread64) × (target ≢ f.lseek64)
            → Gives (next (with_target symbol target s p)))
        → Gives (hook e l symbol next p)
    unfolding hook
    hook-Gives symbol next p k =
        let func = pointer symbol p.g_x_libc_funcs in
        let r = outside {e = e} (l.funchook_prepare symbol func) p in
        after_prepare-Gives symbol next r.0 r.1
          (k r.0.target r.1.manager (t.is_new symbol func p.manager.world))

    hook_if-Gives :
        (test : Process e → Bool) (symbol : Symbol) (next : P e Bool) (p : Process e)
        → (test p ≡ true → Gives (hook e l symbol next p))
        → (test p ≡ false → Gives (next p))
        → Gives (hook_if e l test symbol next p)
    unfolding hook_if
    hook_if-Gives test symbol next p taken skipped = if-both Gives (test p) _ _ taken skipped

    -- The chain from opendir on.
    abbrev from_opendir : P e Bool
    from_opendir = hook e l opendir_symbol (
        hook e l readdir_symbol (
          hook e l closedir_symbol
            (hook e l access_symbol (hook e l xstat_symbol (λ p. (true, p))))))

    from_opendir-Gives :
        (p : Process e) → p.prepared ++ last_hooks p.g_x_libc_funcs ≡ xs → Gives (from_opendir p)
    from_opendir-Gives p h = hook-Gives _ _ p (λ a s x. hook-Gives _ _ _ (λ b s x.
        hook-Gives _ _ _
          (λ c s x. hook-Gives _ _ _ (λ d s x. hook-Gives _ _ _ (λ g s x _. simp append_assoc h)))))

    -- A test whether a target is the old function, which does not fail.
    never : {C : Type 0} → (a b : ℕ) → b ≢ a → not (a == b) ≡ false → C
    never a b h n = absurd (ground arith)

    apart-taken :
        (p : Process e)
        → close_nocancel_differs e l p ≡ true
        → apart_from_close p.g_x_trampoline
          ≡ (close_nocancel_symbol, p.g_x_trampoline.close_nocancel) ∷ []
    apart-taken p h = ground arith

    apart-skipped :
        (p : Process e)
        → close_nocancel_differs e l p ≡ false
        → apart_from_close p.g_x_trampoline ≡ []
    apart-skipped p h = ground arith

    -- The functions are `f`, they are saved, and none is hooked.
    abbrev at_start : Process e → Process e
    at_start p = record p { g_x_libc_funcs = f; g_x_trampoline = f; prepared = [] }

    pub hook_all-Gives : (p : Process e) → every_hook f ≡ xs → Gives (hook_all e l (at_start p))
    unfolding hook_all
    hook_all-Gives p h = hook-Gives _ _ _ (λ a s x. hook-Gives _ _ _ (λ b s x.
        hook-Gives _ _ _ (λ pread s new. hook-Gives _ _ _ (λ lseek s new_lseek.
          hook_if-Gives _ _ _ _
            (λ q. hook-Gives _ _ _ (λ pread64 s x.
              hook_if-Gives _ _ _ _
                (λ q. hook-Gives _ _ _ (λ lseek64 s x. hook-Gives _ _ _ (λ close s x.
                  hook_if-Gives _ _ _ _
                    (λ q. hook-Gives _ _ _ (λ close_nocancel s x. from_opendir-Gives _ (
                      ap (λ ys. first_hooks f ++ ys ++ last_hooks f)
                        (sym (apart-taken (at_start p) q))
                      ∙ h)))
                    (λ q. from_opendir-Gives _ (
                      ap (λ ys. first_hooks f ++ ys ++ last_hooks f)
                        (sym (apart-skipped (at_start p) q))
                      ∙ h)))))
                (λ q. never f.lseek64 lseek new_lseek.1 q)))
            (λ q. never f.pread64 pread new.0 q)))))
