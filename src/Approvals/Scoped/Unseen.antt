-- ===== src/Approvals/Scoped/Unseen.antt =====
-- src/capabilityhub/approval_store.py: that the calls of one scope cannot be seen in another.
use capabilityhub.Base.{
  ℕ, String, ◌≡◌, ◌≢◌, refl, sym, ap, ◌∙◌, inl, inr, Bool, true, false, Option, none, some,
  Option-cases, if◌then◌else◌,
}
use capabilityhub.Dict.{text_key, pair_key, get}
use capabilityhub.Dict.Rows.{alter, alter_absent, get-alter_self}
use capabilityhub.Errors.{value_error}
use capabilityhub.Result.{Result, ok, raise}
use capabilityhub.Exec.{Exec, pure, throw, ◌>>=◌}
use capabilityhub.Exec.Steps.{bind_ok, bind_raise}
use capabilityhub.Approvals.{ApprovalRecord, is_empty_text, approval_not_found}
use capabilityhub.Approvals.Scoped.{
  TenantScope, ScopedRow, ScopedTable, scoped_record, expire_row, select_row, Digests, digests,
  read_row, get_scoped,
}
use capabilityhub.Approvals.Scoped.Apart.{Apart}
use capabilityhub.Approvals.Scoped.Isolation.{Calls, Calls-Apart}

module _ (lib : Digests) where
  -- What `get` answers is a matter of its own row.
  answer : TenantScope → ℕ → Option ScopedRow → Result ApprovalRecord
  answer scope now none = raise approval_not_found
  answer scope now (some r) = ok (scoped_record (expire_row now r) scope)

  read_row-answer :
      (scope : TenantScope) (now : ℕ) (key : String × String) (d : ScopedTable)
      → (read_row lib scope now key d).0 ≡ answer scope now (get key d)
  unfolding read_row select_row answer
  read_row-answer scope now key d = elim (Option-cases (get key d)) [
    | inl gone ↦
        ap (λ e. (◌>>=◌ (select_row key) shown e).0) (alter_absent key (expire_row now) d gone)
        ∙ ap (λ p. p.0) (bind_raise (select_row key) shown d approval_not_found d (missing gone))
        ∙ sym (ap (answer scope now) gone)
    | inr (r, there) ↦
        let e = alter key (expire_row now) d in
        ap (λ p. p.0)
          (bind_ok (select_row key) shown e (expire_row now r) e
            (found e (expire_row now r) (get-alter_self key (expire_row now) d r there)))
        ∙ sym (ap (answer scope now) there)
  ]
    where
      shown : ScopedRow → Exec ScopedTable ApprovalRecord
      shown row = pure (scoped_record row scope)

      missing : get key d ≡ none → select_row key d ≡ (raise approval_not_found, d)
      missing gone = rw (gone, select_row) refl

      found : (e : ScopedTable) (r : ScopedRow) → get key e ≡ some r → select_row key e ≡ (ok r, e)
      found e r there = rw (there, select_row) refl

  -- Isolation: after any calls in one scope, refused ones included, get in a scope with another digest
  -- answers what it answered before them, for every identifier and at every time.
  pub Calls-unseen :
      (scope other : TenantScope)
      → lib.of_scope other ≢ lib.of_scope scope
      → (d e : ScopedTable) → Calls lib scope d e
      → (approval_id : String) (now : ℕ)
      → (get_scoped lib other approval_id now e).0 ≡ (get_scoped lib other approval_id now d).0
  unfolding get_scoped digests Apart
  Calls-unseen scope other differs d e run approval_id now = by_text (is_empty_text approval_id)
    where
      key : String × String
      key = (lib.of_scope other, lib.of_approval (lib.of_scope other) approval_id)

      read : Bool → ScopedTable → Result ApprovalRecord
      read c x =
          let named : Exec ScopedTable (String × String) =
            if c then throw value_error else pure key in
          (◌>>=◌ named (read_row lib other now) x).0

      by_text : (c : Bool) → read c e ≡ read c d
      by_text true = refl
      by_text false =
          read_row-answer other now key e
          ∙ ap (answer other now) (Calls-Apart lib scope run key differs)
          ∙ sym (read_row-answer other now key d)
