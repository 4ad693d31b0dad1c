-- ===== src/Io/Laws/Writes.antt =====
-- `_atomic_write_stream`, `upload` and `copy`: the destination gets all the bytes, or nothing that is
-- watched changes.
use hidden.Base.{ℕ, suc, ◌≡◌, refl, subst, none, some, [], ◌∷◌, Text, nat_eq, list_eq, All, arith}
use hidden.Errors.{Error, file_not_found, ok}
use hidden.Files.{Disk, payload, unlink, replace, parent_dir}
use hidden.Files.Laws.{payload-replace}
use hidden.World.{World, Flags, Io, ◌>>◌, return, tick, syscall, uuid4, catch}
use hidden.World.Triple.{Triple, bind, after, weaken, catching, given}
use hidden.Io.{
  Stream, build_temp_path, write_stream, atomic_write_stream, fsync_directory, forgive_missing,
  until_empty, upload,
}
use hidden.Io.Laws.{Tables, Watched, Stands, AllAvoid, At, set, set-apart, IsApart, AllAvoid-set}
use hidden.Io.Laws.Calls.{With, syscall_with, tick_with, sync_tick_lem, raise_lem, unlink-Changed}
use hidden.Io.Laws.Streams.{joined, Holds, opened, write_chunks_lem, IsApart-build_temp_path}

-- After the temporary file has taken the place of the destination.
replaced_files :
    (p q s : Text) (l : Watched) (d d' : Disk)
    → IsApart p l
    → payload p d ≡ some s
    → replace p q d ≡ ok d'
    → All (Stands d) l
    → All (Stands d') (set q (some s) l)
replaced_files p q s [] d d' apart x e h = tt
replaced_files p q s ((r, t) ∷ l) d d' apart x e h = (
  ground (arith, payload-replace p q r s d d' x e, apart.0, h.0),
  replaced_files p q s l d d' apart.1 x e h.1,
)

-- What `_atomic_write_stream` leaves where it returns.
abbrev pub Written :
    {A : Type 0} → (Stream × A → Type 0) → Tables → Flags → Watched → Text → A → World → Type 0
Written Good c f l q a w =
    (chunks : Stream) × (s : Text) × Good (chunks, a)
    × (joined chunks ≡ some s)
    × At c f (set q (some s) l) w

later_avoid :
    (tokens : ℕ → Text) (l : Watched) → AllAvoid tokens l → AllAvoid (λ n. tokens (suc n)) l
later_avoid tokens [] h = tt
later_avoid tokens ((p, s) ∷ l) h = ((λ n. h.0 (suc n)), later_avoid tokens l h.1)

pub fsync_lem :
    {c : Tables} {f : Flags} {l : Watched} (p : Text)
    → Triple (At c f l) (fsync_directory p) (λ _. At c f l) (λ _. ⊥)
unfolding fsync_directory
fsync_lem p = sync_tick_lem

module _ {c : Tables} {f : Flags} {l : Watched} where
  replaced :
      (p q s : Text)
      → IsApart p l
      → Triple
          (With c f l (Holds p s))
          (syscall (replace p q))
          (λ _. At c f (set q (some s) l))
          (At c f l)
  replaced p q s apart =
      weaken
        (syscall_with (replace p q) (Holds p s) (λ _. Unit {0}) (set q (some s) l)
          (λ tokens. AllAvoid-set tokens q (some s) l)
          (λ d d' h x e. (replaced_files p q s l d d' apart x e h, tt)))
        (λ _ w h. h.state) (λ w h. h)

  forgiven : (e : Error) → Triple (At c f l) (forgive_missing e) (λ _. At c f l) (At c f l)
  forgiven file_not_found = record { run = λ w h. h }
  forgiven e = record { run = λ w h. h }

  unlinked_temp :
      (p : Text)
      → IsApart p l
      → Triple (At c f l) (catch (syscall (unlink p)) forgive_missing) (λ _. At c f l) (At c f l)
  unlinked_temp p apart =
      catching
        (weaken (unlink-Changed p) (λ _ w h. subst (λ l'. At c f l' w) (set-apart p none l apart) h)
          (λ w h. h))
        forgiven

  fresh_token :
      (q : Text)
      → Triple (At c f l) uuid4 (λ t w. At c f l w × IsApart (build_temp_path q t) l) (At c f l)
  unfolding uuid4
  fresh_token q = record {
    run = λ w h. (
      record {
        files = h.files;
        fresh = later_avoid w.tokens l h.fresh;
        committed = h.committed;
        session = h.session;
        flags = h.flags;
        synced = h.synced;
      },
      IsApart-build_temp_path w.tokens q l h.fresh,
    );
  }

  module _ {A : Type 0} (Good : Stream × A → Type 0) (produce : Io (Stream × A)) where
    finished :
        (p q s : Text) (chunks : Stream) (a : A)
        → IsApart p l
        → Good (chunks, a)
        → joined chunks ≡ some s
        → Triple
            (With c f l (Holds p s))
            (tick
              >> (tick >> (syscall (replace p q) >> (fsync_directory (parent_dir q) >> return a))))
            (Written Good c f l q)
            (At c f l)
    finished p q s chunks a apart good whole = after tick_with λ _. after tick_with λ _.
        after (replaced p q s apart) λ _.
          weaken
            (after (fsync_lem (parent_dir q))
              λ _. record { run = λ w h. (chunks, s, good, whole, h) })
            (λ _ w h. h) (λ w h. absurd h)

    written :
        (p q : Text)
        → IsApart p l
        → Triple
            (With c f l (Holds p []))
            produce
            (λ r w. With c f l (Holds p []) w × Good r)
            (At c f l)
        → Triple (At c f l) (write_stream produce p q) (Written Good c f l q) (At c f l)
    unfolding write_stream
    written p q apart produced = after (opened p apart) λ _. bind produced λ r. given λ good.
        after (write_chunks_lem p apart [] r.0)
          λ _. record { run = λ w (s, whole, h). (finished p q s r.0 r.1 apart good whole).run w h }

    pub atomic_write_stream_lem :
        (q : Text)
        → ((p : Text)
            → IsApart p l
            → Triple
                (With c f l (Holds p []))
                produce
                (λ r w. With c f l (Holds p []) w × Good r)
                (At c f l))
        → Triple (At c f l) (atomic_write_stream produce q) (Written Good c f l q) (At c f l)
    unfolding atomic_write_stream
    atomic_write_stream_lem q produced = bind (fresh_token q) λ t. given λ apart.
        catching (written (build_temp_path q t) q apart (produced (build_temp_path q t) apart))
          λ e. after (unlinked_temp (build_temp_path q t) apart) λ _. raise_lem e

-- `upload` writes the chunks before the first empty one.
pub upload_lem :
    {c : Tables} {f : Flags} {l : Watched} (body : Stream) (q : Text)
    → Triple
        (At c f l)
        (upload body q)
        (λ _ w. (s : Text) × (joined (until_empty body) ≡ some s) × At c f (set q (some s) l) w)
        (At c f l)
unfolding upload
upload_lem {c} {f} {l} body q =
    weaken
      (atomic_write_stream_lem (λ r. r.0 ≡ until_empty body) (return (until_empty body, tt)) q
        (λ p apart. record { run = λ w h. (h, refl) }))
      (λ _ w (chunks, s, same, whole, h). (s, subst (λ x. joined x ≡ some s) same whole, h))
      (λ w h. h)
