-- ===== src/Lib.antt =====
-- Hidden: an S3-compatible object store over an encrypted file system (app/).
--
-- A request is validated (app/s3/validation.py), its names are resolved to paths (app/s3/paths.py),
-- its body is read under a limit (app/streams.py), and a service (app/services/) does the work under
-- locks on paths (app/locks.py) and with rows of a database. What fails is raised as an exception
-- (app/errors.py), which app/handlers.py turns into a response.
--
-- * Base has the names that the other modules share: Boolean tests and `==`, lists over the native
--   numbers, Python's texts as lists of code points, Python's integers.
-- * Errors models app/errors.py and app/handlers.py; code that may raise returns a `Result`.
-- * Paths models app/s3/paths.py. Paths.Posix is what it and app/locks.py use of Python's posixpath,
--   Paths.Segments relates an absolute path in normal form to its list of segments, Paths.Normal has
--   the paths that are normal already, and Paths.Confined says where an object's path lies.
-- * Validation models app/s3/validation.py.
-- * Locks models app/locks.py: Locks has the resources and their conflicts, Locks.Manager the state
--   and one function per operation, with a relation for what the tasks do, one step at a time. A step
--   is what runs under the condition's own lock. The cancellation of a wait is a step as well.
-- * Streams models app/streams.py. Streams.Body is `RequestBodyReader`, whose stream is the list of
--   what the request will yield; Streams.Chunked is `AwsChunkedReader`, whose source is the list of
--   what its reads will give. `int(line, 16)` is written out in Streams.Hex.
--   Streams.Build is `build_body_reader`, which puts the second over the reads of the first.
-- * Xml models two of the parsers of app/xml/. What `ElementTree` makes of the body is their input.
-- * Bucket models the bucket of app/models/bucket.py with its check constraints, app/s3/bucket.py,
--   app/s3/versioning.py and app/s3/object_lock.py; Bucket.Services models the services that read and
--   change a bucket's versioning and Object Lock, over the rows that are committed and the events
--   that are emitted. What the database raises is an argument of the services.
-- * Multipart models app/s3/multipart.py over the rows of the uploads and of their parts, without the
--   listing of parts. Whether a staged file exists is an argument.
-- * Files is the file system as app/repositories/io.py uses it: what stands at each path, and what the
--   system calls of Python's os do to it. World adds the rows as the session sees them and as they are
--   committed, the tokens of `uuid4`, the local flags of a service, and a list of what is still to fail:
--   each system call and each call of the database takes the next entry, and each synchronisation of a
--   directory the next of a list of its own. World.Triple reasons about calls by what holds before,
--   after they return and after they raise.
-- * Io models app/repositories/io.py; Io.Laws says what each operation does to the files that are
--   watched. isfile and isdir do not fail, and a file that has been opened is read to its end.
-- * Objects models app/s3/object.py, and Objects.Upload app/services/object_upload.py, with one function
--   for the `try`, one for its handler and one for what comes after; Objects.Download models
--   app/services/object_download.py. Uploads.Part models app/services/multipart_upload.py in the same
--   way. Uploads.Create, Uploads.Abort and Buckets model app/services/multipart_create.py,
--   multipart_abort.py and bucket_create.py. The locks that they hold are those of Locks, and a commit
--   that fails has committed nothing. Uploads.Complete models app/services/multipart_complete.py in the
--   same way, and Uploads.Etag what it uses of app/s3/etag.py, with MD5 as a parameter.
-- * Auth models app/security/sigv4.py and app/dependencies/require_auth.py: Auth.Patterns has the regular
--   expressions, Auth.Credentials the two ways to carry a signature, Auth.Canonical the text that is
--   signed, Auth.Verify the checks, Auth.Times the dates and Auth.Texts what is used of Python's texts.
--   The other modules are lemmas: Auth.Lines, Auth.Queries and Auth.Covered on what the canonical
--   request tells of the request, Auth.Ordered on its order, Auth.Payload on the body, Auth.Signature on
--   the signature, Auth.Accepted and Auth.Granted on what is let through, Auth.Printed and Auth.Signed on
--   what a client writes. SHA-256 and its HMAC, `str.lower` and `str.upper`, `parse_qsl`, the `Date`
--   header and `decrypt_string` are parameters.
-- * Secrets models the passphrase blobs of app/security/encryption.py. The key derivation and the cipher
--   are parameters, as are the salt and the nonce.
-- * Tests runs the code on concrete inputs.
--
-- Loops are structural recursion, on the list of what a stream will give, or on the text. Five are
-- on fuel: the reads of a body, which take a byte each until the last one; `str` on a number, which has fewer digits than its successor counts; the loops of
-- `AwsChunkedReader.read` and `_skip_trailer` on one more than the number of bytes left, since each
-- round takes two bytes at least or is the last one; and the search for the missing parents of a
-- directory on one more than the length of its path, which is longer than its parent's.
--
-- Not modelled: the listings, the history of versions, which the code does not write yet, the strings
-- that Fernet encrypts, the processes of gocryptfs (app/runtime/), hooks and their subscribers, whose
-- failures `emit` catches, logging, the routers and the rendering of XML.
-- Python's numbers are native numbers, or an integer where the code takes a sign.
pub mod Base
pub mod Errors
pub mod Paths
pub mod Locks
pub mod Validation
pub mod Streams
pub mod Xml
pub mod Bucket
pub mod Multipart
pub mod Files
pub mod World
pub mod Io
pub mod Objects
pub mod Uploads
pub mod Buckets
pub mod Auth
pub mod Secrets
pub mod Tests
