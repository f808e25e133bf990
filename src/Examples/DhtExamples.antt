-- ===== src/Examples/DhtExamples.antt =====
-- A network of one node, and the theorems on `MainlineDhtKv` at it.
use hubert_rust.Base.{
  ℕ, ◌+◌, refl, Option, none, some, arith, if◌then◌else◌, bytes_beq, bytes_eq, beq_refl,
}
use hubert_rust.Base.Lists.{Bytes}
use hubert_rust.Base.Io.{ok}
use hubert_rust.AridDerivation.Laws.{}
use hubert_rust.Mainline.{Dht}
use hubert_rust.Mainline.Network.{IsDht}
use hubert_rust.Hybrid.Reference.{}

-- A network of one node, which ignores the salt.
pub record Net : Type 0 where
  pub items : Bytes → Option Bytes
  pub clock : ℕ

abbrev pub dht : Dht
dht = record {
  Net = Net;
  verifying_key = λ seed. seed;
  get_mutable_most_recent = λ key salt net. net.items key;
  put_mutable = λ item net. (
    ok tt,
    record net {
      items = λ key. if bytes_beq item.signer key then some item.value else net.items key;
    },
  );
  now = λ net. net.clock;
  sleep = λ nanos net. record net { clock = net.clock + nanos };
}

pub dht-IsDht : IsDht dht
dht-IsDht = record {
  put_ok = λ item net u free h. rw (beq_refl bytes_eq item.signer) refl;
  sleep_passes = λ nanos net. omega arith;
}

abbrev pub net : Net
net = record { items = λ _. none; clock = 0 }
