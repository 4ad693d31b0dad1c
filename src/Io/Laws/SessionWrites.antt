-- ===== src/Io/Laws/SessionWrites.antt =====
-- The operations that write files leave the rows alone, whatever fails.
use hidden.Base.{List, [], ◌∷◌, Text}
use hidden.Errors.{Error, file_not_found, is_a_directory, Result, ok, err}
use hidden.Paths.Posix.{dirname}
use hidden.Files.{parent_dir, unlink, replace, write_file}
use hidden.World.{World, Io, ◌>>=◌, return, raise, catch, try_else, or_else}
use hidden.World.Triple.{raised, Ends, bind, after, catching, if_lem}
use hidden.Io.{
  Env, Stream, get_filesize, iter_read, build_temp_path, append_file, write_chunks, write_stream,
  atomic_write_stream, forgive_missing, upload, until_empty, get_file_hash, get_mimetype, mimetype,
  copy, sources_iter, concat,
}
use hidden.Io.Laws.Session.{
  OnRows, KeepsRows, tick-KeepsRows, return-KeepsRows, syscall-KeepsRows, uuid4-KeepsRows,
  fsync_directory-KeepsRows, isdir-KeepsRows, mktree-KeepsRows,
}
use hidden.Objects.{object_mkdir}

raise-KeepsRows : {A : Type 0} (e : Error) → KeepsRows (raise {A = A} e)
raise-KeepsRows e k r = raised e

-- What a call finds on the disk.
pub looked-KeepsRows : {A : Type 0} (f : World → Result A) → KeepsRows (λ w. (f w, w))
looked-KeepsRows f k r = record { run = λ w h. seen (f w) w h }
  where
    seen :
        {A : Type 0} (m : Result A) (w : World)
        → OnRows k r w
        → Ends (λ _. OnRows k r) (OnRows k r) (m, w)
    seen (ok a) w h = h
    seen (err e) w h = h

pub get_filesize-KeepsRows : (env : Env) (p : Text) → KeepsRows (get_filesize env p)
unfolding get_filesize
get_filesize-KeepsRows env p k r = after (tick-KeepsRows k r) λ _. looked-KeepsRows _ k r

iter_read-KeepsRows : (p : Text) → KeepsRows (iter_read p)
unfolding iter_read
iter_read-KeepsRows p k r = after (tick-KeepsRows k r) λ _. looked-KeepsRows _ k r

write_chunks-KeepsRows : (p : Text) (body : Stream) → KeepsRows (write_chunks p body)
write_chunks-KeepsRows p [] k r = return-KeepsRows tt k r
write_chunks-KeepsRows p (err e ∷ rest) k r = raised e
write_chunks-KeepsRows p (ok chunk ∷ rest) k r =
    after (syscall-KeepsRows (append_file p chunk) k r) λ _. write_chunks-KeepsRows p rest k r

forgiven_missing-KeepsRows : (e : Error) → KeepsRows (forgive_missing e)
forgiven_missing-KeepsRows file_not_found k r = return-KeepsRows tt k r
forgiven_missing-KeepsRows e k r = raised e

module _ {A : Type 0} (produce : Io (Stream × A)) (produced : KeepsRows produce) where
  write_stream-KeepsRows : (temporary q : Text) → KeepsRows (write_stream produce temporary q)
  unfolding write_stream
  write_stream-KeepsRows temporary q k r =
      after (syscall-KeepsRows (write_file temporary []) k r) λ _. bind (produced k r) λ (body, a).
        after (write_chunks-KeepsRows temporary body k r) λ _. after (tick-KeepsRows k r) λ _.
          after (tick-KeepsRows k r) λ _.
            after (syscall-KeepsRows (replace temporary q) k r)
              λ _. after (fsync_directory-KeepsRows (parent_dir q) k r) λ _. return-KeepsRows a k r

  atomic_write_stream-KeepsRows : (q : Text) → KeepsRows (atomic_write_stream produce q)
  unfolding atomic_write_stream
  atomic_write_stream-KeepsRows q k r = bind (uuid4-KeepsRows k r) λ token.
      catching (write_stream-KeepsRows (build_temp_path q token) q k r) λ e.
        after
          (catching (syscall-KeepsRows (unlink (build_temp_path q token)) k r)
            (λ e. forgiven_missing-KeepsRows e k r))
          λ _. raised e

pub upload-KeepsRows : (body : Stream) (q : Text) → KeepsRows (upload body q)
unfolding upload
upload-KeepsRows body q =
    atomic_write_stream-KeepsRows (return (until_empty body, tt))
      (return-KeepsRows (until_empty body, tt)) q

pub get_file_hash-KeepsRows : (env : Env) (p : Text) → KeepsRows (get_file_hash env p)
unfolding get_file_hash
get_file_hash-KeepsRows env p k r =
    bind (iter_read-KeepsRows p k r) λ s. return-KeepsRows (env.md5 s) k r

pub get_mimetype-KeepsRows : (env : Env) (p : Text) → KeepsRows (get_mimetype env p)
unfolding get_mimetype
get_mimetype-KeepsRows env p k r = record {
  run = λ w h. typed (iter_read p w) ((iter_read-KeepsRows p k r).run w h);
}
  where
    typed :
        (o : Result Text × World)
        → Ends (λ _. OnRows k r) (OnRows k r) o
        → Ends (λ _. OnRows k r) (OnRows k r) (mimetype env p o.0, o.1)
    typed (ok s, w) h = h
    typed (err file_not_found, w) h = h
    typed (err is_a_directory, w) h = h
    typed (err e, w) h = h

pub copy-KeepsRows : (p q : Text) → KeepsRows (copy p q)
unfolding copy
copy-KeepsRows p q =
    atomic_write_stream-KeepsRows (iter_read p >>= λ s. return (ok s ∷ [], tt))
      (λ k r. bind (iter_read-KeepsRows p k r) λ s. return-KeepsRows (ok s ∷ [], tt) k r) q

sources_iter-KeepsRows : (env : Env) (sources : List Text) → KeepsRows (sources_iter env sources)
sources_iter-KeepsRows env [] k r = return-KeepsRows ([], []) k r
sources_iter-KeepsRows env (source ∷ sources) k r = bind (iter_read-KeepsRows source k r) λ s.
    bind (sources_iter-KeepsRows env sources k r)
      λ (chunks, hashes). return-KeepsRows (ok s ∷ chunks, env.md5 s ∷ hashes) k r

pub concat-KeepsRows :
    (env : Env) (sources : List Text) (q : Text) → KeepsRows (concat env sources q)
unfolding concat
concat-KeepsRows env sources =
    atomic_write_stream-KeepsRows (sources_iter env sources) (sources_iter-KeepsRows env sources)

catch-KeepsRows :
    {A : Type 0} (m : Io A) (h : Error → Io A)
    → KeepsRows m
    → ((e : Error) → KeepsRows (h e))
    → KeepsRows (catch m h)
catch-KeepsRows m h t th k r = catching (t k r) (λ e. th e k r)

pub object_mkdir-KeepsRows :
    (env : Env) (p resource : Text) → KeepsRows (object_mkdir env p resource)
unfolding object_mkdir
object_mkdir-KeepsRows env p resource k r =
    bind (isdir-KeepsRows p k r) λ taken.
      if_lem taken (raised _) (catching (mktree-KeepsRows env (dirname p) k r) λ e. raised _)

pub try_else-KeepsRows :
    (m n : Io (Unit {0})) → KeepsRows m → KeepsRows n → KeepsRows (try_else m n)
try_else-KeepsRows m n t u k r = record { run = λ w h. ended (m w) ((t k r).run w h) }
  where
    ended :
        (o : Result (Unit {0}) × World)
        → Ends (λ _. OnRows k r) (OnRows k r) o
        → Ends (λ _. OnRows k r) (OnRows k r) (or_else n o)
    ended (ok a, w) h = (u k r).run w h
    ended (err e, w) h = h
