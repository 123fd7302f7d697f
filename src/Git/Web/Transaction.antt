-- ===== src/Git/Web/Transaction.antt =====
-- What the transaction of a web edit has done in front of git.
use setfork_core.Shared.{
  ℕ, suc, ◌≡◌, refl, ap, sym, ◌∙◌, ◌⊎◌, inl, inr, Bool, Option, none, some, List, Str, Result, ok,
  err, arith, from_ok, ok_injective, pos, and_then, ℤ,
}
use setfork_core.Json.{Json}
use setfork_core.Canon.Written.{VersionData, skill_header_valid}
use setfork_core.Db.Rows.{loc}
use setfork_core.Git.Sync.{SyncError}
use setfork_core.Git.Web.{
  patched, with_text, first_tags, valid_kind, numbered, WebEdit, ListRow, Tables, Prepared, of_db,
  found, check_expected, prepare, db_tail,
}

module _ {Db : Type 0} (t : Tables Db) where
  -- A field of the list: as it was, where the patch has none, and written, where it has one.
  abbrev pub IsPatched :
      {A : Type 0} → Option A → A → (A → Db → Result SyncError Db) → Db → A × Db → Type 0
  IsPatched new old write tx (a, tx') =
      ((new ≡ none) × (a ≡ old) × (tx' ≡ tx)) ⊎ ((new ≡ some a) × (write a tx ≡ ok tx'))

  -- The version for git: its number, the note, and the fields of the list as they are given.
  abbrev pub canon_of : WebEdit → ListRow → Json → Json → List Str → Bool → ℤ → VersionData
  canon_of edit l title desc tags ordered ts = record {
    version = pos (suc l.current);
    note = edit.note;
    ts = ts;
    title = loc title;
    desc = loc desc;
    tags = tags;
    ordered = ordered;
    kind = valid_kind t l.kind;
    skill_header = and_then l.skill_header skill_header_valid;
    steps = numbered t 0 edit.rows;
  }

  -- The run of the transaction: it begins at the database `base`, locks and reads the row of the
  -- list in it, writes the fields of the patch one after the other and inserts the row of the
  -- version behind the current one.
  pub record IsPrepared (edit : WebEdit) (base : Db) (p : Prepared Db) : Type 0 where
    pub tx : Db
    pub l : ListRow
    pub title : Json × Db
    pub desc : Json × Db
    pub tags : List Str × Db
    pub ordered : Bool × Db
    pub begun : t.begin base ≡ ok tx
    pub locked : t.select_for_update tx ≡ ok (some l)
    pub expected : (e : ℕ) → edit.expected_version ≡ some e → e ≡ l.current
    pub titled : IsPatched (with_text t edit.patch.title) l.title t.set_title tx title
    pub described : IsPatched edit.patch.desc l.desc t.set_desc title.1 desc
    pub tagged : IsPatched (first_tags t edit.patch.tags) l.tags t.set_tags desc.1 tags
    pub put_in_order : IsPatched edit.patch.ordered l.ordered t.set_ordered tags.1 ordered
    pub inserted :
        t.insert_version_row (suc l.current) edit.note edit.author_id ordered.1 ≡ ok (p.row, p.tx)
    pub next : p.version ≡ suc l.current
    pub canon : p.vdata ≡ canon_of edit l title.0 desc.0 tags.0 ordered.0 p.row.created_s

  of_db-ok : {A : Type 0} (r : Result SyncError A) (a : A) → of_db t r ≡ ok a → r ≡ ok a
  of_db-ok (ok b) a h = ap ok (ok_injective b a h)
  of_db-ok (err e) a h = absurd (ground arith)

  found-ok : (row : Option ListRow) (l : ListRow) → found t row ≡ ok l → row ≡ some l
  found-ok none l h = absurd (ground arith)
  found-ok (some k) l h = ap some (ok_injective k l h)

  check_expected-ok :
      (x : Option ℕ) (current : ℕ) (u : Unit {0})
      → check_expected t x current ≡ ok u
      → (e : ℕ) → x ≡ some e
      → e ≡ current
  unfolding check_expected
  check_expected-ok none current u h e g = absurd (ground arith)
  check_expected-ok (some e') current u h e g = ground arith

  patched-IsPatched :
      {A : Type 0} (new : Option A) (old : A) (write : A → Db → Result SyncError Db) (tx : Db)
      (r : A × Db)
      → patched t new old write tx ≡ ok r
      → IsPatched new old write tx r
  patched-IsPatched none old write tx r h =
      let e = ok_injective (old, tx) r h in inl (refl, ap (λ x. x.0) (sym e), ap (λ x. x.1) (sym e))
  patched-IsPatched (some a) old write tx r h = from_ok (of_db t (write a tx)) _ r h λ tx' e k.
      let m = ok_injective (a, tx') r k in
      inr (
        ap (λ x. some x.0) m,
        ap (λ x. write x.0 tx) (sym m) ∙ of_db-ok (write a tx) tx' e ∙ ap (λ x. ok x.1) m,
      )

  pub prepare-IsPrepared :
      (edit : WebEdit) (base : Db) (p : Prepared Db)
      → prepare t edit base ≡ ok p
      → IsPrepared edit base p
  unfolding prepare
  prepare-IsPrepared edit base p h = from_ok (of_db t (t.begin base)) _ p h λ tx e1 h1.
      from_ok (of_db t (t.select_for_update tx)) _ p h1 λ row e2 h2.
        from_ok (found t row) _ p h2 λ l e3 h3.
          from_ok (check_expected t edit.expected_version l.current) _ p h3 λ u e4 h4.
            from_ok (patched t (with_text t edit.patch.title) l.title t.set_title tx) _ p h4
              λ a1 e5 h5.
                from_ok (patched t edit.patch.desc l.desc t.set_desc a1.1) _ p h5 λ a2 e6 h6.
                  from_ok (patched t (first_tags t edit.patch.tags) l.tags t.set_tags a2.1) _ p h6
                    λ a3 e7 h7.
                      from_ok (patched t edit.patch.ordered l.ordered t.set_ordered a3.1) _ p h7
                        λ a4 e8 h8.
                          from_ok
                            (of_db t
                              (t.insert_version_row (suc l.current) edit.note edit.author_id a4.1))
                            _ p h8
                            λ a5 e9 h9.
                              let m = sym (ok_injective _ p h9) in
                              record {
                                tx = tx;
                                l = l;
                                title = a1;
                                desc = a2;
                                tags = a3;
                                ordered = a4;
                                begun = of_db-ok (t.begin base) tx e1;
                                locked =
                                    of_db-ok (t.select_for_update tx) row e2
                                    ∙ ap ok (found-ok row l e3);
                                expected = check_expected-ok edit.expected_version l.current u e4;
                                titled = patched-IsPatched _ l.title t.set_title tx a1 e5;
                                described =
                                    patched-IsPatched edit.patch.desc l.desc t.set_desc a1.1 a2 e6;
                                tagged = patched-IsPatched _ l.tags t.set_tags a2.1 a3 e7;
                                put_in_order =
                                    patched-IsPatched edit.patch.ordered l.ordered t.set_ordered
                                      a3.1 a4 e8;
                                inserted = of_db-ok _ a5 e9 ∙ ap (λ q. ok (q.row, q.tx)) (sym m);
                                next = ap (λ q. q.version) m;
                                canon =
                                    ap (λ q. q.vdata) m
                                    ∙ ap (λ q. canon_of edit l a1.0 a2.0 a3.0 a4.0 q.row.created_s)
                                        (sym m);
                              }

  -- The rows of the steps of the version are written in the transaction, then the counter, and the
  -- transaction is committed, which gives the database `base'`.
  pub record IsStored (edit : WebEdit) (p : Prepared Db) (base' : Db) : Type 0 where
    pub with_steps : Db
    pub with_counter : Db
    pub steps : t.insert_step_rows p.row.ver_id edit.rows p.tx ≡ ok with_steps
    pub counter : t.bump_current_version p.version with_steps ≡ ok with_counter
    pub committed : t.commit with_counter ≡ ok base'

  pub db_tail-IsStored :
      (edit : WebEdit) (p : Prepared Db) (base' : Db)
      → db_tail t edit p ≡ ok base'
      → IsStored edit p base'
  unfolding db_tail
  db_tail-IsStored edit p base' h =
      from_ok (t.insert_step_rows p.row.ver_id edit.rows p.tx) _ base' h λ tx e k.
        from_ok (t.bump_current_version p.version tx) _ base' k λ tx' f c. record {
          with_steps = tx;
          with_counter = tx';
          steps = e;
          counter = f;
          committed = c;
        }
