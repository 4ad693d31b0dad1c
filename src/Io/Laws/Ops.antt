-- ===== src/Io/Laws/Ops.antt =====
-- The other calls of app/repositories/io.py, and those of the session.
use hidden.Base.{
  suc, ◌≡◌, refl, sym, ap, subst, ◌∙◌, inl, inr, Option, none, some, List, [], ◌∷◌, append-nil,
  Text, nat_eq, list_eq, ◌==◌, ◌⊎◌, All, arith, length, Bool-cases,
}
use hidden.Errors.{
  Error, file_exists, file_not_found, is_a_directory, Result, Result-cases, ok, err,
}
use hidden.Paths.Posix.{abspath}
use hidden.Files.{Disk, payload, unlink, replace, parent_dir, find, file}
use hidden.Files.Laws.{payload-replace}
use hidden.World.{World, Rows, Flags, Io, ◌>>=◌, return, asks, syscall, flush, commit, rollback}
use hidden.World.Triple.{catching, if_lem, Pred, Ends, Triple, bind, after, weaken, from}
use hidden.Io.{
  Env, bytes_or_none, unlinked, delete, iter_read, contents, copy, is_file, isfile, isdir,
  get_filesize, get_file_hash, get_mimetype, mimetype, missing, make_all, make_above, is_there,
  forgive_existing, sync_all, mktree, rename,
}
use hidden.Io.Laws.{Tables, Watched, Stands, At, set, set-apart, IsApart, AllAvoid-set}
use hidden.Io.Laws.Calls.{
  raise_lem, With, plain, syscall_lem, tick_with, tick_lem, return_lem, unlink-Changed, mkdir_same,
}
use hidden.Io.Laws.Streams.{joined}
use hidden.Io.Laws.Writes.{atomic_write_stream_lem, fsync_lem}

-- A watched file with its bytes.
abbrev pub Listed : Text → Option Text → Watched → Type 0
Listed p s [] = ⊥
Listed p s ((q, t) ∷ l) = ((q ≡ p) × (t ≡ s)) ⊎ Listed p s l

pub listed :
    (p : Text) (s : Option Text) (l : Watched) (d : Disk)
    → Listed p s l
    → All (Stands d) l
    → payload p d ≡ s
listed p s [] d i h = absurd i
listed p s ((q, t) ∷ l) d (inl (same, bytes)) h = ap (λ r. payload r d) (sym same) ∙ h.0 ∙ bytes
listed p s ((q, t) ∷ l) d (inr i) h = listed p s l d i h.1

found : (p s : Text) (d : Disk) → payload p d ≡ some s → find p d ≡ some (file s)
unfolding payload
found p s d h = ground (arith, h)

read_payload : (p s : Text) (d : Disk) → contents (find p d) ≡ ok s → payload p d ≡ some s
unfolding payload
read_payload p s d h = ground (arith, h)

moved_files :
    (p q s : Text) (l : Watched) (d d' : Disk)
    → payload p d ≡ some s
    → replace p q d ≡ ok d'
    → All (Stands d) l
    → All (Stands d') (set q (some s) (set p none l))
moved_files p q s [] d d' x e h = tt
moved_files p q s ((r, t) ∷ l) d d' x e h =
    (ground (arith, payload-replace p q r s d d' x e, h.0), moved_files p q s l d d' x e h.1)

-- A call that cannot fail.
kept : {A : Type 0} {P R : Pred} {Q : A → Pred} {m : Io A} → Triple P m Q (λ _. ⊥) → Triple P m Q R
kept t = weaken t (λ _ w h. h) (λ w h. absurd h)

module _ {c : Tables} {f : Flags} {l : Watched} where
  pub asks_lem :
      {A : Type 0} (g : World → A) → Triple (At c f l) (asks g) (λ _. At c f l) (At c f l)
  asks_lem g = record { run = λ w h. h }

  -- Reading a watched file gives its bytes.
  pub iter_read_with :
      {X : Disk → Type 0} (p : Text) (s : Option Text)
      → Listed p s l
      → Triple (With c f l X) (iter_read p) (λ t w. With c f l X w × (s ≡ some t)) (At c f l)
  unfolding iter_read
  iter_read_with p s i = after tick_with λ _. record {
    run = λ w h. elim (Result-cases (contents (find p w.disk))) [
      | inl (e, failed) ↦ rw failed h.state
      | inr (t, done) ↦
          rw done (h, sym (listed p s l w.disk i h.state.files) ∙ read_payload p t w.disk done)
    ];
  }

  pub iter_read_lem : (p : Text) → Triple (At c f l) (iter_read p) (λ _. At c f l) (At c f l)
  unfolding iter_read
  iter_read_lem p = after tick_lem λ _. record {
    run = λ w h. elim (Result-cases (contents (find p w.disk))) [
      | inl (e, failed) ↦ rw failed h
      | inr (t, done) ↦ rw done h
    ];
  }

  pub get_file_hash_lem :
      (env : Env) (p s : Text)
      → Listed p (some s) l
      → Triple (At c f l) (get_file_hash env p) (λ n w. At c f l w × (n ≡ env.md5 s)) (At c f l)
  unfolding get_file_hash
  get_file_hash_lem env p s i =
      bind (from plain (iter_read_with p (some s) i)) λ t. record {
        run = λ w (h, same). (h.state, ap (λ o. env.md5 (bytes_or_none o)) (sym same));
      }

  pub get_filesize_lem :
      (env : Env) (p s : Text)
      → Listed p (some s) l
      → Triple (At c f l) (get_filesize env p) (λ n w. At c f l w × (n ≡ length s)) (At c f l)
  unfolding get_filesize
  get_filesize_lem env p s i = after tick_lem λ _. record {
    run = λ w h. rw (found p s w.disk (listed p (some s) l w.disk i h.files)) (h, refl);
  }

  pub get_mimetype_lem :
      (env : Env) (p : Text) → Triple (At c f l) (get_mimetype env p) (λ _. At c f l) (At c f l)
  unfolding get_mimetype
  get_mimetype_lem env p = record {
    run = λ w h. guessed (iter_read p w) ((iter_read_lem p).run w h);
  }
    where
      guessed :
          (r : Result Text × World)
          → Ends (λ _. At c f l) (At c f l) r
          → Ends (λ _. At c f l) (At c f l) (mimetype env p r.0, r.1)
      guessed (ok s, w) h = h
      guessed (err file_not_found, w) h = h
      guessed (err is_a_directory, w) h = h
      guessed (err e, w) h = h

  pub isfile_lem :
      (p : Text) (s : Option Text)
      → Listed p s l
      → Triple (At c f l) (isfile p) (λ b w. At c f l w × (b ≡ is_file s)) (At c f l)
  unfolding isfile
  isfile_lem p s i = record { run = λ w h. (h, ap is_file (listed p s l w.disk i h.files)) }

  pub isdir_lem : (p : Text) → Triple (At c f l) (isdir p) (λ _. At c f l) (At c f l)
  unfolding isdir
  isdir_lem p = asks_lem _

  -- Copying a watched file gives its bytes to the destination.
  pub copy_lem :
      (p q : Text) (s : Option Text)
      → Listed p s l
      → Triple (At c f l) (copy p q) (λ _. At c f (set q s l)) (At c f l)
  unfolding copy
  copy_lem p q s i =
      weaken
        (atomic_write_stream_lem (λ r. joined r.0 ≡ s) (iter_read p >>= λ t. return (ok t ∷ [], tt))
          q
          (λ temp apart.
            bind (iter_read_with p s i)
              λ t. record { run = λ w (h, same). (h, ap some (append-nil t) ∙ sym same) }))
        (λ _ w (chunks, t, same, whole, h). subst (λ o. At c f (set q o l) w) (sym whole ∙ same) h)
        (λ w h. h)

  -- Deleting a file changes nothing else that is watched.
  pub delete_lem :
      (p : Text) → IsApart p l → Triple (At c f l) (delete p) (λ _. At c f l) (At c f l)
  unfolding delete
  delete_lem p apart = record {
    run = λ w h. ended (syscall (unlink p) w) ((unlink-Changed p).run w h);
  }
    where
      ended :
          (r : Result (Unit {0}) × World)
          → Ends (λ _. At c f (set p none l)) (At c f l) r
          → Ends (λ _. At c f l) (At c f l) (unlinked p r)
      ended (ok u, w) h =
          (kept (fsync_lem (parent_dir p))).run w
            (subst (λ l'. At c f l' w) (set-apart p none l apart) h)
      ended (err file_not_found, w) h = h
      ended (err e, w) h = h

  forgiven_existing :
      (e : Error) → Triple (At c f l) (forgive_existing e) (λ _. At c f l) (At c f l)
  forgiven_existing file_exists = return_lem tt
  forgiven_existing e = raise_lem e

  make_above_lem : (ps : List Text) → Triple (At c f l) (make_above ps) (λ _. At c f l) (At c f l)
  make_above_lem [] = return_lem tt
  make_above_lem (p ∷ ps) = bind (asks_lem (λ w. is_there (find p w.disk))) λ there.
      if_lem there (return_lem tt)
        (catching (after (make_above_lem ps) λ _. mkdir_same p) forgiven_existing)

  make_all_lem : (ps : List Text) → Triple (At c f l) (make_all ps) (λ _. At c f l) (At c f l)
  make_all_lem [] = return_lem tt
  make_all_lem (p ∷ ps) = after (make_above_lem ps) λ _. mkdir_same p

  sync_all_lem : (ps : List Text) → Triple (At c f l) (sync_all ps) (λ _. At c f l) (At c f l)
  sync_all_lem [] = return_lem tt
  sync_all_lem (p ∷ ps) = after (sync_all_lem ps) λ _. kept (fsync_lem (parent_dir p))

  pub mktree_lem :
      (env : Env) (p : Text) → Triple (At c f l) (mktree env p) (λ _. At c f l) (At c f l)
  unfolding mktree
  mktree_lem env p =
      bind (asks_lem (λ w. missing (suc (length (abspath env.cwd p))) (abspath env.cwd p) w.disk))
        λ created. after (make_all_lem created) λ _. sync_all_lem created

  -- Moving a watched file gives its bytes to the destination.
  pub rename_lem :
      (p q s : Text)
      → Listed p (some s) l
      → Triple (At c f l) (rename p q) (λ _. At c f (set q (some s) (set p none l))) (At c f l)
  unfolding rename
  rename_lem p q s i =
      after
        (syscall_lem (replace p q) (set q (some s) (set p none l))
          (λ tokens h.
            AllAvoid-set tokens q (some s) (set p none l) (AllAvoid-set tokens p none l h))
          (λ d d' h e. moved_files p q s l d d' (listed p (some s) l d i h) e h))
        (λ _. elim (Bool-cases (parent_dir p == parent_dir q)) [
          | inl same ↦ rw same (kept (fsync_lem (parent_dir q)))
          | inr apart ↦
              rw apart
                (after (kept (fsync_lem (parent_dir p))) λ _. kept (fsync_lem (parent_dir q)))
        ])

  pub commit_lem :
      Triple
        (At c f l)
        commit
        (λ _. At (record { committed = c.session; session = c.session }) f l)
        (At c f l)
  unfolding commit
  commit_lem = after tick_lem λ _. record {
    run = λ w h. record {
      files = h.files;
      fresh = h.fresh;
      committed = h.session;
      session = h.session;
      flags = h.flags;
      synced = h.synced;
    };
  }

  pub rollback_lem :
      Triple
        (At c f l)
        rollback
        (λ _. At (record { committed = c.committed; session = c.committed }) f l)
        (At c f l)
  unfolding rollback
  rollback_lem = after tick_lem λ _. record {
    run = λ w h. record {
      files = h.files;
      fresh = h.fresh;
      committed = h.committed;
      session = h.committed;
      flags = h.flags;
      synced = h.synced;
    };
  }

  pub flush_lem :
      (g : Rows → Rows)
      → Triple
          (At c f l)
          (flush g)
          (λ _. At (record { committed = c.committed; session = g c.session }) f l)
          (At c f l)
  unfolding flush
  flush_lem g = after tick_lem λ _. record {
    run = λ w h. record {
      files = h.files;
      fresh = h.fresh;
      committed = h.committed;
      session = ap g h.session;
      flags = h.flags;
      synced = h.synced;
    };
  }
