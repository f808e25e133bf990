-- ===== src/Examples/Aging.antt =====
-- What the small daemon keeps while time passes.
use mathlib.Core.Option
use hubert_rust.Base.{ℕ, ◌+◌, ◌≡◌, refl, true, Option, none, some, arith, bytes_beq, bytes_eq}
use hubert_rust.Base.Lists.{Bytes, text}
use hubert_rust.Base.Io.{err}
use hubert_rust.AridDerivation.Laws.{}
use hubert_rust.Mainline.Network.{}
use hubert_rust.Ipfs.{find_key}
use hubert_rust.Ipfs.Kubo.{Key}
use hubert_rust.Ipfs.Growth.{Ages, Grows, IsLasting}
use hubert_rust.Ipfs.{says_unpublished}
use hubert_rust.Base.{◌≤◌, ◌&&◌, Bool, false, Bool-cases, inl, inr, ◌≢◌}
use hubert_rust.Hybrid.Reference.{}
use hubert_rust.Examples.Daemon.{
  Node, kubo, kubo-IsDaemon, key_of, held, or_error, published, generated, published-pins,
}

generated-Grows :
    (name : Bytes) (n : Node) (o : Option Key)
    → find_key name n.keys ≡ o
    → (other id : Bytes) → key_of n other ≡ some id
    → key_of (generated name o n).1 other ≡ some id
generated-Grows name n (some key) q other id h = h
generated-Grows name n none q other id h = elim (Bool-cases (bytes_beq name other)) [
  | inl same ↦ ground (arith, bytes_eq.beq_iff name other)
  | inr differs ↦ ground arith
]

published_other :
    (path other old : Bytes) (n : Node) (key : Key)
    → key.id ≢ other
    → n.names other ≡ some old
    → (published path (some key) n).1.names other ≡ some old
published_other path other old n key h q = ground (arith, bytes_eq.beq_iff key.id other)

published-names :
    (path id other old : Bytes) (n : Node) (o : Option Key)
    → Option.map (λ key. key.id) o ≡ some id
    → id ≢ other
    → n.names other ≡ some old
    → (published path o n).1.names other ≡ some old
published-names path id other old n none h differs q = q
published-names path id other old n (some key) h differs q =
    published_other path other old n key (λ e. differs (cc)) q

-- What is kept where names and content are.
unchanged-Ages :
    (m n : Node)
    → m.clock ≤ n.clock
    → ((name id : Bytes) → key_of m name ≡ some id → key_of n name ≡ some id)
    → n.names ≡ m.names
    → ((cid : Bytes) → m.blocks cid ≡ true → m.pins cid ≡ true → n.blocks cid ≡ true)
    → ((cid : Bytes) → m.pins cid ≡ true → n.pins cid ≡ true)
    → Ages kubo kubo-IsDaemon m n
unchanged-Ages m n later keys names blocks pins = record {
  later = later;
  keys = keys;
  names = λ id path h soon. (rw names h, refl);
  contents = λ cid bytes h pin. (kept cid bytes (m.blocks cid) refl h pin, pins cid pin);
}
  where
    kept :
        (cid bytes : Bytes) (b : Bool)
        → m.blocks cid ≡ b
        → held cid b ≡ some bytes
        → m.pins cid ≡ true
        → held cid (n.blocks cid) ≡ some bytes
    kept cid bytes true q h pin = rw (blocks cid q pin) h
    kept cid bytes false q h pin = cc

generated-same :
    (name : Bytes) (n : Node) (o : Option Key)
    → ((generated name o n).1.names ≡ n.names)
      × ((generated name o n).1.blocks ≡ n.blocks)
      × ((generated name o n).1.pins ≡ n.pins)
      × ((generated name o n).1.clock ≡ n.clock)
generated-same name n (some key) = (refl, refl, refl, refl)
generated-same name n none = (refl, refl, refl, refl)

generated-Grown : (name : Bytes) (n : Node) → Grows kubo kubo-IsDaemon n (kubo.key_gen name n).1
generated-Grown name n =
    let (names, blocks, pins, clock) = generated-same name n (find_key name n.keys) in
    record {
      ages =
          unchanged-Ages n (kubo.key_gen name n).1 (omega (arith, clock))
            (generated-Grows name n (find_key name n.keys) refl) names (λ cid b p. rw blocks b)
            (λ cid p. rw pins p);
      names = λ id path h. rw names h;
    }

add-Grown : (bytes : Bytes) (n : Node) → Grows kubo kubo-IsDaemon n (kubo.add bytes n).1
add-Grown bytes n = record {
  ages =
      unchanged-Ages n (kubo.add bytes n).1 (omega arith) (λ name id h. h) refl
        (λ cid b p. ground arith) (λ cid p. p);
  names = λ id path h. h;
}

pin_add-Grown :
    (cid : Bytes) (recursive : Bool) (n : Node)
    → Grows kubo kubo-IsDaemon n (kubo.pin_add cid recursive n).1
pin_add-Grown cid recursive n = record {
  ages =
      unchanged-Ages n (kubo.pin_add cid recursive n).1 (omega arith) (λ name id h. h) refl
        (λ c b p. b) (λ c p. ground arith);
  names = λ id path h. h;
}

-- Time passes, and the content that is not pinned is collected.
abbrev pub collected : ℕ → Node → Node
collected nanos n = record n { blocks = λ cid. n.pins cid && n.blocks cid; clock = n.clock + nanos }

pub collected-Ages : (nanos : ℕ) (n : Node) → Ages kubo kubo-IsDaemon n (collected nanos n)
collected-Ages nanos n =
    unchanged-Ages n (collected nanos n) (omega arith) (λ name id h. h) refl
      (λ cid b p. rw (p, b) refl) (λ cid p. p)

not_resolved :
    (path message : Bytes) (o : Option Bytes)
    → o ≡ some path
    → or_error (text "could not resolve name") o ≡ err message
    → says_unpublished message ≡ false
not_resolved path message (some p) q h = cc
not_resolved path message none q h = cc

pub kubo-IsLasting : IsLasting kubo kubo-IsDaemon
kubo-IsLasting = record {
  key_gen = generated-Grown;
  add = add-Grown;
  pin_add = pin_add-Grown;
  sleep = λ nanos n.
      unchanged-Ages n (kubo.sleep nanos n) (omega arith) (λ name id h. h) refl (λ cid b p. b)
        (λ cid p. p);
  name_publish_later =
      λ path lifetime key n. omega (arith, (published-pins path (find_key key n.keys) n).1);
  name_publish = λ path lifetime key id other old n h differs q.
      (published-names path id other old n (find_key key n.keys) h differs q, refl);
  resolvable = λ id path message n q h. not_resolved path message (n.names id) q h;
}
