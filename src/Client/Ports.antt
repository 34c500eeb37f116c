-- ===== src/Client/Ports.antt =====
-- The search for a port: where one of the hundred is free, it is found within one turn.
use cranesps.Base.{
  ℕ, zero, suc, ◌+◌, ◌-◌, ◌≤◌, ◌<◌, ◌≡◌, Bool, true, false, some, leb, ◌==◌, arith, if◌then◌else◌,
  Bool-cases, differs, inl, inr,
}
use cranesps.Client.{Client, send_port_base, send_port_max, next_send_port, find_port}

-- How many ports are tried before port `p`.
abbrev distance : ℕ → Client → ℕ
distance p c =
    if c.send_port == send_port_max
    then p - send_port_base
    else if leb c.send_port p
    then p - c.send_port
    else (send_port_max - c.send_port) + (p - send_port_base)

abbrev pub InRange : Client → Type 0
InRange c = (send_port_base ≤ c.send_port) × (c.send_port ≤ send_port_max)

distance-next :
    (p : ℕ) (c : Client)
    → send_port_base ≤ p
    → p < send_port_max
    → InRange c
    → ((next_send_port c).0 == p) ≡ false
    → (suc (distance p (next_send_port c).1) ≤ distance p c) × InRange (next_send_port c).1
unfolding next_send_port
distance-next p c low high r other = ground arith

-- Every turn has a hundred ports.
distance-lt :
    (p : ℕ) (c : Client) → send_port_base ≤ p → p < send_port_max → InRange c → distance p c < 100
distance-lt p c low high r = ground arith

find_port-within :
    (fuel : ℕ) (free : ℕ → Bool) (p : ℕ) (c : Client)
    → free p ≡ true
    → send_port_base ≤ p
    → p < send_port_max
    → InRange c
    → distance p c < fuel
    → (port : ℕ) × (next : Client) × (find_port fuel free c ≡ some (port, next))
      × (free port ≡ true)
      × (send_port_base ≤ port)
      × (port < send_port_max)
      × InRange next
unfolding find_port next_send_port
find_port-within zero free p c ok low high r d = absurd (omega arith)
find_port-within (suc fuel) free p c ok low high r d =
    let (port, next) = next_send_port c in
    elim (Bool-cases (free port)) [
      | inl found ↦
          (port, next, rw (find_port, found), found, ground arith, ground arith, ground arith)
      | inr taken ↦
          let (nearer, r') = distance-next p c low high r (differs free p port ok taken) in
          let (q, after, run, is_free, above, below, again) =
            find_port-within fuel free p next ok low high r' (omega arith) in
          (q, after, rw (find_port, taken) run, is_free, above, below, again)
    ]

-- The fuel of a turn is enough.
pub find_port-total :
    (free : ℕ → Bool) (p : ℕ) (c : Client)
    → free p ≡ true
    → send_port_base ≤ p
    → p < send_port_max
    → InRange c
    → (port : ℕ) × (next : Client) × (find_port 100 free c ≡ some (port, next))
      × (free port ≡ true)
      × (send_port_base ≤ port)
      × (port < send_port_max)
      × InRange next
find_port-total free p c ok low high r =
    find_port-within 100 free p c ok low high r (distance-lt p c low high r)
