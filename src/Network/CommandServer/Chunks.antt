-- ===== src/Network/CommandServer/Chunks.antt =====
-- How the bytes of a connection are split into reads does not matter: what a read leaves in the
-- buffer is taken up with the next bytes.
use alicia_server.Common.{
  ℕ, zero, suc, ◌+◌, ◌-◌, ◌≤◌, ◌<◌, ◌≡◌, ◌≢◌, ◌⊎◌, inl, inr, refl, sym, ap, ◌∙◌, arith, List, [],
  ◌∷◌, ◌++◌, Option, none, some, length, take, drop, length-append, length-drop, take-append_le,
  drop-append_le, some_eq,
}
use mathlib.Core.Path.{subst}
use mathlib.Core.List.{append_assoc}
use alicia_server.Common.Outcome.{Exception, returned, threw}
use alicia_server.Util.Stream.Bytes.{of_bytes}
use alicia_server.Network.MessageMagic.{MessageMagic, decode_message_magic}
use alicia_server.Network.CommandServer.{
  Command, Round, incomplete, failed, command, Received, dispatch, settle, Handle, decipher,
  read_command, read_round, rounds, on_client_data,
}

-- the same round with more bytes behind
abbrev more_unread : List ℕ → Round → Round
more_unread b incomplete = incomplete
more_unread b (failed e c) = failed e c
more_unread b (command c k rest) = command c k (rest ++ b)

decipher-append :
    (code id : ℕ) (buffer rest b : List ℕ)
    → decipher code id buffer (rest ++ b) ≡ more_unread b (decipher code id buffer rest)
unfolding decipher
decipher-append code id [] rest b = refl
decipher-append code id (x ∷ buffer) rest b = ground arith

read_command-append :
    (code : ℕ) (magic : MessageMagic) (a b : List ℕ)
    → read_command code magic a ≢ incomplete
    → read_command code magic (a ++ b) ≡ more_unread b (read_command code magic a)
unfolding read_command
read_command-append code magic a b c = ground (
  arith,
  length-append a b,
  take-append_le (magic.length - 4) a b,
  drop-append_le (magic.length - 4) a b,
  decipher-append code magic.id (take (magic.length - 4) a) (drop (magic.length - 4) a) b,
)

-- A round that came to an end comes to the same end when more bytes stand behind.
read_round-append :
    (code : ℕ) (a b : List ℕ)
    → read_round code a ≢ incomplete
    → read_round code (a ++ b) ≡ more_unread b (read_round code a)
unfolding read_round
read_round-append code a b c = ground (
  arith,
  length-append a b,
  take-append_le 4 a b,
  drop-append_le 4 a b,
  read_command-append code (decode_message_magic (of_bytes (take 4 a))) (drop 4 a) b,
)

decipher_rest :
    (code id : ℕ) (buffer rest : List ℕ) (c : Command) (k : ℕ) (left : List ℕ)
    → decipher code id buffer rest ≡ command c k left
    → left ≡ rest
unfolding decipher
decipher_rest code id [] rest c k left e = cc
decipher_rest code id (x ∷ buffer) rest c k left e = ground arith

-- A command takes at least the bytes of its magic.
pub read_round-length :
    (code : ℕ) (a : List ℕ) (c : Command) (k : ℕ) (left : List ℕ)
    → read_round code a ≡ command c k left
    → length left + 4 ≤ length a
unfolding read_round read_command
read_round-length code a c k left e =
    let magic : MessageMagic = decode_message_magic (of_bytes (take 4 a)) in
    let behind : List ℕ = drop 4 a in
    ground (
      arith,
      length-drop 4 a,
      length-drop (magic.length - 4) behind,
      decipher_rest code magic.id (take (magic.length - 4) behind) (drop (magic.length - 4) behind)
          c k left,
    )

Round-cases :
    (r : Round)
    → (r ≡ incomplete)
      ⊎ ((x : (e : Exception) × ℕ) × (r ≡ failed x.0 x.1))
      ⊎ ((c : Command) × (k : ℕ) × (left : List ℕ) × (r ≡ command c k left))
Round-cases incomplete = inl refl
Round-cases (failed e k) = inr (inl ((e, k), refl))
Round-cases (command c k left) = inr (inr (c, k, left, refl))

returned_eq : {x y : List ℕ} → returned x ≡ returned y → x ≡ y
returned_eq e = ground arith

-- With more fuel than bytes the loop ends, and more fuel changes nothing.
rounds_fuel :
    {H : Type 0} (handle : Handle H) (f g code : ℕ) (h : H) (a : List ℕ)
    → length a < f
    → length a < g
    → ((r : Received H) × (rounds handle f code h a ≡ some r))
      × (rounds handle f code h a ≡ rounds handle g code h a)
unfolding rounds
rounds_fuel handle zero g code h a hf hg = elim hf [ ]
rounds_fuel handle (suc f) zero code h a hf hg = elim hg [ ]
rounds_fuel handle (suc f) (suc g) code h a hf hg = elim (Round-cases (read_round code a)) [
  | inl e ↦ rw (e, rounds) ((_, refl), refl)
  | inr (inl (x, e)) ↦ rw (e, rounds) ((_, refl), refl)
  | inr (inr (c, k, left, e)) ↦
      let shorter : length left + 4 ≤ length a = read_round-length code a c k left e in
      let ((r, er), same) =
        rounds_fuel handle f g (settle k (handle c h).0) (handle c h).1 left (omega arith)
          (omega arith) in
      rw (e, rounds) ((dispatch c r, rw er refl), rw same refl)
]

-- The commands `cs`, and then what `r` holds.
abbrev pub after : {H : Type 0} → List Command → Option (Received H) → Option (Received H)
after cs none = none
after cs (some r) = some (record r { commands = cs ++ r.commands })

after-nil : {H : Type 0} (r : Option (Received H)) → after [] r ≡ r
after-nil none = refl
after-nil (some r) = refl

on_client_data_lem :
    {H : Type 0} (handle : Handle H) (code : ℕ) (h : H) (a : List ℕ)
    → on_client_data handle code h a ≡ rounds handle (suc (length a)) code h a
unfolding on_client_data
on_client_data_lem handle code h a = refl

rounds-zero :
    {H : Type 0} (handle : Handle H) (code : ℕ) (h : H) (a : List ℕ) (r : Received H)
    → rounds handle zero code h a ≢ some r
unfolding rounds
rounds-zero handle code h a r e = cc

after-after :
    {H : Type 0} (cs ds : List Command) (r : Option (Received H))
    → after cs (after ds r) ≡ after (cs ++ ds) r
after-after cs ds none = refl
after-after cs ds (some r) = rw append_assoc

-- one round of the loop, by how it ends
pub rounds_incomplete :
    {H : Type 0} (handle : Handle H) (f code : ℕ) (h : H) (a : List ℕ)
    → read_round code a ≡ incomplete
    → rounds handle (suc f) code h a
      ≡ some (record { commands = []; code = code; handlers = h; outcome = returned a })
unfolding rounds
rounds_incomplete handle f code h a e = rw (e, rounds)

rounds_failed :
    {H : Type 0} (handle : Handle H) (f code : ℕ) (h : H) (a : List ℕ) (x : Exception) (k : ℕ)
    → read_round code a ≡ failed x k
    → rounds handle (suc f) code h a
      ≡ some (record { commands = []; code = k; handlers = h; outcome = threw x })
unfolding rounds
rounds_failed handle f code h a x k e = rw (e, rounds)

pub rounds_command :
    {H : Type 0} (handle : Handle H) (f code : ℕ) (h : H) (a : List ℕ) (c : Command) (k : ℕ)
    (left : List ℕ)
    → read_round code a ≡ command c k left
    → rounds handle (suc f) code h a
      ≡ after (c ∷ []) (rounds handle f (settle k (handle c h).0) (handle c h).1 left)
unfolding rounds
rounds_command handle f code h a c k left e = ground arith

after-eq-some :
    {H : Type 0} (cs : List Command) (o : Option (Received H)) (r : Received H)
    → after cs o ≡ some r
    → (q : Received H) × (o ≡ some q) × (record q { commands = cs ++ q.commands } ≡ r)
after-eq-some cs none r e = cc
after-eq-some cs (some q) r e = (q, refl, ground arith)

-- that the loop has left the bytes `left`, and is taken up with `b` behind them
abbrev Resumes :
    {H : Type 0} → Handle H → (all : Option (Received H)) → (left b : List ℕ) → Received H → Type 0
Resumes handle all left b q =
    all ≡ after q.commands (on_client_data handle q.code q.handlers (left ++ b))

resumed_here :
    {H : Type 0} (handle : Handle H) (g code : ℕ) (h : H) (a b left : List ℕ) (r : Received H)
    → record { commands = []; code = code; handlers = h; outcome = returned a } ≡ r
    → r.outcome ≡ returned left
    → length (a ++ b) < g
    → Resumes handle (rounds handle g code h (a ++ b)) left b r
resumed_here {H = H} handle g code h a b left r e ok small =
    let same : a ≡ left = returned_eq (ap (λ (x : Received H). x.outcome) e ∙ ok) in
    subst (λ (q : Received H). Resumes handle (rounds handle g code h (a ++ b)) left b q) e
      (subst
        (λ (t : List ℕ).
          rounds handle g code h (a ++ b) ≡ after [] (on_client_data handle code h (t ++ b)))
        same
        ((rounds_fuel handle g (suc (length (a ++ b))) code h (a ++ b) small (omega arith)).1
          ∙ sym (on_client_data_lem handle code h (a ++ b))
          ∙ sym (after-nil (on_client_data handle code h (a ++ b)))))

rounds-append :
    {H : Type 0} (handle : Handle H) (f g code : ℕ) (h : H) (a b left : List ℕ) (r : Received H)
    → rounds handle f code h a ≡ some r
    → r.outcome ≡ returned left
    → length (a ++ b) < g
    → Resumes handle (rounds handle g code h (a ++ b)) left b r
rounds-append {H = H} handle zero g code h a b left r e ok small =
    absurd (rounds-zero handle code h a r e)
rounds-append {H = H} handle (suc f) zero code h a b left r e ok small = elim small [ ]
rounds-append {H = H} handle (suc f) (suc g) code h a b left r e ok small =
    elim (Round-cases (read_round code a)) [
      | inl stop ↦
          resumed_here handle (suc g) code h a b left r
            (some_eq (sym (rounds_incomplete handle f code h a stop) ∙ e)) ok small
      | inr (inl (x, fail)) ↦ absurd (ground (arith, rounds_failed handle f code h a x.0 x.1 fail))
      | inr (inr (c, k, rest, next)) ↦
          let shorter : length rest + 4 ≤ length a = read_round-length code a c k rest next in
          let settled : ℕ = settle k (handle c h).0 in
          let (q, eq, whole) =
            after-eq-some (c ∷ []) (rounds handle f settled (handle c h).1 rest) r
              (sym (rounds_command handle f code h a c k rest next) ∙ e) in
          subst
            (λ (q : Received H). Resumes handle (rounds handle (suc g) code h (a ++ b)) left b q)
            whole
            (rounds_command handle g code h (a ++ b) c k (rest ++ b)
                (read_round-append code a b (λ s. ground (arith, next)) ∙ ap (more_unread b) next)
              ∙ ap (after (c ∷ [])) (
                  rounds-append handle f g settled (handle c h).1 rest b left q eq
                    (ap (λ (x : Received H). x.outcome) whole ∙ ok)
                    (omega (arith, length-append a b, length-append rest b)))
              ∙ after-after (c ∷ []) q.commands
                  (on_client_data handle q.code q.handlers (left ++ b)))
    ]

-- A read that is cut anywhere gives what the whole gives: where the bytes `a` are handled without an
-- exception of the loop, handling them, and then what is left of them with the bytes `b` behind,
-- dispatches the same commands in the same order, leaves the same code and state of the handlers, and
-- returns the same unread bytes or throws the same exception as handling `a ++ b` at once.
pub on_client_data-append :
    {H : Type 0} (handle : Handle H) (code : ℕ) (h : H) (a b left : List ℕ) (r : Received H)
    → on_client_data handle code h a ≡ some r
    → r.outcome ≡ returned left
    → on_client_data handle code h (a ++ b)
      ≡ after r.commands (on_client_data handle r.code r.handlers (left ++ b))
on_client_data-append handle code h a b left r e ok =
    on_client_data_lem handle code h (a ++ b)
    ∙ rounds-append handle (suc (length a)) (suc (length (a ++ b))) code h a b left r
        (sym (on_client_data_lem handle code h a) ∙ e) ok (omega arith)

-- The loop always ends, whatever the handlers do: it never uses up the rounds that the number of bytes
-- allows.
pub on_client_data_total :
    {H : Type 0} (handle : Handle H) (code : ℕ) (h : H) (a : List ℕ)
    → (r : Received H) × (on_client_data handle code h a ≡ some r)
unfolding on_client_data
on_client_data_total handle code h a =
    (rounds_fuel handle (suc (length a)) (suc (length a)) code h a (omega arith) (omega arith)).0
