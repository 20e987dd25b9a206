-- ===== src/Hooks/Preparing.antt =====
-- hooksqfs.c: to prepare a hook changes neither the saved functions nor whether hooks are in place.
use hooksqfs.Base.{ℕ, ◌≡◌, refl, inl, inr, Bool, true, false, arith, if◌then◌else◌, Bool-cases}
use hooksqfs.Env.{Env}
use hooksqfs.Hooks.Functions.{Symbol, pointer}
use hooksqfs.Hooks.Install.{
  Prepared, Loader, Process, P, outside, after_funchook_prepare, go_on, hook, hook_if, hook_all,
}

-- What holds of both sides of a test.
pub if-both :
    {A : Type 0} (C : A → Type 0) (b : Bool) (x y : A)
    → (b ≡ true → C x)
    → (b ≡ false → C y)
    → C (if b then x else y)
if-both C true x y c d = c refl
if-both C false x y c d = d refl

module _ (e : Env) (l : Loader e.World) where
  -- While hooks are prepared.
  pub record Steady (p q : Process e) : Type 0 where
    pub trampoline : q.g_x_trampoline ≡ p.g_x_trampoline
    pub handle : q.hooks_funchook ≡ p.hooks_funchook
    pub handles : q.handles ≡ p.handles
    pub active : q.active ≡ p.active

  abbrev Steadies : P e Bool → Type 0
  Steadies next = (p q : Process e) → Steady p q → Steady p (next q).1

  after_prepare-Steady :
      (symbol : Symbol) (func : ℕ) (r : Prepared) (p q : Process e)
      → Steady p q
      → Steady p (after_funchook_prepare e l symbol func r q).1
  after_prepare-Steady symbol func r p q h = elim (Bool-cases r.ok) [
    | inl b ↦ rw b (ground arith)
    | inr b ↦ rw b (ground arith)
  ]

  go_on-Steady :
      (next : P e Bool) (ok : Bool) (p q : Process e)
      → Steadies next
      → Steady p q
      → Steady p (go_on e l next ok q).1
  go_on-Steady next true p q k h = k p q h
  go_on-Steady next false p q k h = h

  hook-Steady :
      (symbol : Symbol) (next : P e Bool) → Steadies next → Steadies (hook e l symbol next)
  unfolding hook
  hook-Steady symbol next k p q h =
      let func = pointer symbol q.g_x_libc_funcs in
      let r = outside (l.funchook_prepare symbol func) q in
      let a = after_funchook_prepare e l symbol func r.0 r.1 in
      go_on-Steady next a.0 p a.1 k (after_prepare-Steady symbol func r.0 p r.1 (ground arith))

  hook_if-Steady :
      (test : Process e → Bool) (symbol : Symbol) (next : P e Bool)
      → Steadies next
      → Steadies (hook_if e l test symbol next)
  unfolding hook_if
  hook_if-Steady test symbol next k p q h = elim (Bool-cases (test q)) [
    | inl b ↦ rw b (hook-Steady symbol next k p q h)
    | inr b ↦ rw b (k p q h)
  ]

  pub hook_all-Steady : Steadies (hook_all e l)
  unfolding hook_all
  hook_all-Steady = hook-Steady _ _ (
      hook-Steady _ _ (
        hook-Steady _ _ (
          hook-Steady _ _ (
            hook_if-Steady _ _ _ (
              hook_if-Steady _ _ _ (
                hook-Steady _ _ (
                  hook_if-Steady _ _ _ (
                    hook-Steady _ _ (
                      hook-Steady _ _
                        (hook-Steady _ _ (hook-Steady _ _ (hook-Steady _ _ (λ p q h. h)))))))))))))
