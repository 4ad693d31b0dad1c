-- ===== src/Files/Laws.antt =====
-- What each system call does to the bytes of every regular file.
use hidden.Base.{
  ◌≡◌, none, some, [], ◌∷◌, Text, ◌==◌, ==_iff, nat_eq, list_eq, if◌then◌else◌, arith,
}
use hidden.Errors.{ok}
use hidden.Files.{
  Node, file, dir, Disk, find, erase, put, payload, write_file, unlink, mkdir, replace,
}

find-erase : (p q : Text) (d : Disk) → find q (erase p d) ≡ (if p == q then none else find q d)
unfolding find erase
find-erase p q [] = ground arith
find-erase p q ((r, n) ∷ d) = ground (arith, find-erase p q d, ==_iff r p, ==_iff r q, ==_iff p q)

pub find-put :
    (p q : Text) (n : Node) (d : Disk) → find q (put p n d) ≡ (if p == q then some n else find q d)
unfolding find
find-put p q n d = ground (arith, find-erase p q d)

payload-erase :
    (p q : Text) (d : Disk) → payload q (erase p d) ≡ (if p == q then none else payload q d)
unfolding payload
payload-erase p q d = ground (arith, find-erase p q d)

-- Writing a file gives it its bytes, and no other file changes.
pub payload-write_file :
    (p q s : Text) (d d' : Disk)
    → write_file p s d ≡ ok d'
    → payload q d' ≡ (if p == q then some s else payload q d)
unfolding write_file payload
payload-write_file p q s d d' h = ground (arith, h, find-put p q (file s) d)

pub payload-unlink :
    (p q : Text) (d d' : Disk)
    → unlink p d ≡ ok d'
    → payload q d' ≡ (if p == q then none else payload q d)
unfolding unlink payload
payload-unlink p q d d' h = ground (arith, h, find-erase p q d)

-- A directory takes the place of no file.
pub payload-mkdir : (p q : Text) (d d' : Disk) → mkdir p d ≡ ok d' → payload q d' ≡ payload q d
unfolding mkdir payload
payload-mkdir p q d d' h = ground (arith, h, find-put p q dir d, ==_iff p q)

-- Replacing by a file moves its bytes.
pub payload-replace :
    (p q r s : Text) (d d' : Disk)
    → payload p d ≡ some s
    → replace p q d ≡ ok d'
    → payload r d' ≡ (if q == r then some s else if p == r then none else payload r d)
unfolding replace payload
payload-replace p q r s d d' h e =
    ground (arith, h, e, find-put q r (file s) (erase p d), find-erase p r d)
