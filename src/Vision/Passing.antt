-- ===== src/Vision/Passing.antt =====
-- That no descriptor that arrives over a socket of msgq/visionipc/visionipc.cc is lost, and that
-- those sent are those received.
use msgq.Vision.Channels.{
  Control, Incoming, Arrival, count_fds, deliver, recv_with_fds, Outgoing, send_with_fds,
}
use msgq.Queue.{done-injective, >>=-done, done}
use msgq.Base.{
  ◌/◌, ◌%◌, subst, ◌∷◌, lt→ltb, leb_of_le, ◌*◌, ◌≤◌, ◌<◌, ◌≡◌, refl, sym, ap, ◌∙◌, ◌⊎◌, inl, inr,
  Bool, true, false, Option, none, some, List, [], ◌++◌, append-nil, arith, length, take-length, ℤ,
  pos, negsuc, ℕ,
}

-- the descriptors of a control message
abbrev pub fds_of : Option Control → List ℕ
fds_of none = []
fds_of (some control) = control.fds

-- the descriptors that `recvmsg` installed
abbrev pub arrived : ℤ → Option Control → List ℕ
arrived (pos n) control = fds_of control
arrived (negsuc n) control = []

-- those that the caller was given, and the number that it was told
abbrev pub handed : Option (List ℕ × ℕ) → List ℕ
handed none = []
handed (some (fds, count)) = fds

abbrev pub told : Option (List ℕ × ℕ) → ℕ
told none = 0
told (some (fds, count)) = count

-- The length of the payload is that of the descriptors, four bytes each.
abbrev pub Measured : Option Control → Type 0
Measured none = Unit
Measured (some control) = control.payload ≡ 4 * length control.fds

-- Every descriptor that arrived was handed on or closed, the caller was told how many it has, and
-- none was handed on by a call that failed.
pub record Accounted (m : Incoming) (a : Arrival) : Type 0 where
  pub all : a.closed ++ handed a.fds ≡ arrived m.rc m.control
  pub number : told a.fds ≡ length (handed a.fds)
  pub failure : (a.rc ≡ m.rc) ⊎ ((a.rc ≡ negsuc 0) × (handed a.fds ≡ []))

-- the count is that of the descriptors
count_fds_lem :
    (wanted : Bool) (num_fds : ℕ) (control : Control) {count : ℕ}
    → control.payload ≡ 4 * length control.fds
    → count_fds wanted num_fds control ≡ done count
    → (count ≡ length control.fds) × (wanted ≡ true)
unfolding count_fds
count_fds_lem wanted num_fds control measured e = ground (arith, measured, e)

deliver-Accounted :
    (wanted flagged : Bool) (n : ℕ) (control : Option Control)
    → ((wanted ≡ true) ⊎ (fds_of control ≡ []))
    → Accounted
        (record { rc = pos n; control = control; flagged = flagged })
        (deliver wanted flagged (pos n) (fds_of control) (length (fds_of control)))
unfolding deliver
deliver-Accounted wanted true n control h = record {
  all = append-nil _ ∙ take-length (fds_of control);
  number = refl;
  failure = inr (refl, refl);
}
deliver-Accounted true false n control h = record {
  all = take-length (fds_of control);
  number = ap length (sym (take-length (fds_of control)));
  failure = inl refl;
}
deliver-Accounted false false n control h = record {
  all = elim h [ inl impossible ↦ absurd (cc impossible) | inr e ↦ sym e ];
  number = refl;
  failure = inl refl;
}

-- the same of the whole receive, on the parts of what arrived
parts-Accounted :
    (wanted : Bool) (num_fds : ℕ) (rc : ℤ) (control : Option Control) (flagged : Bool) {a : Arrival}
    → Measured control
    → recv_with_fds wanted num_fds (record { rc = rc; control = control; flagged = flagged })
      ≡ done a
    → Accounted (record { rc = rc; control = control; flagged = flagged }) a
unfolding recv_with_fds
parts-Accounted wanted num_fds (negsuc n) control flagged measured e =
    subst (Accounted _) (done-injective e)
      (record { all = refl; number = refl; failure = inl refl })
parts-Accounted wanted num_fds (pos n) none flagged measured e =
    subst (Accounted _) (done-injective e) (deliver-Accounted wanted flagged n none (inr refl))
parts-Accounted wanted num_fds (pos n) (some control) flagged measured e =
    let (count, counted, rest) = >>=-done (count_fds wanted num_fds control) _ e in
    let (all, asked) = count_fds_lem wanted num_fds control measured counted in
    let whole : Incoming = record { rc = pos n; control = some control; flagged = flagged } in
    subst (Accounted whole) (done-injective rest) (
      subst (λ k. Accounted whole (deliver wanted flagged (pos n) control.fds k)) (sym all)
        (deliver-Accounted wanted flagged n (some control) (inl asked)))

-- A receive of descriptors that returns, the payload being of four bytes for each: every descriptor
-- that arrived was handed to the caller, in order and with its number, or was closed, and a call
-- that turns into a failure hands on none.
pub recv_with_fds-Accounted :
    (wanted : Bool) (num_fds : ℕ) (m : Incoming) {a : Arrival}
    → Measured m.control
    → recv_with_fds wanted num_fds m ≡ done a
    → Accounted m a
recv_with_fds-Accounted wanted num_fds m measured e =
    parts-Accounted wanted num_fds m.rc m.control m.flagged measured e

count_all :
    (fds : List ℕ) (num_fds : ℕ)
    → 0 < length fds
    → length fds ≤ num_fds
    → count_fds true num_fds (record { rights = true; payload = 4 * length fds; fds = fds })
      ≡ done (length fds)
unfolding count_fds
count_all fds num_fds some_fds room =
    let n = length fds in
    let quarter : 4 * n / 4 ≡ n = omega arith in
    let whole : 4 * n % 4 ≡ 0 = omega arith in
    rw (quarter, whole, lt→ltb 0 (4 * n) (omega (arith, some_fds)), leb_of_le n num_fds room) refl

-- the same on the parts of what arrived
parts_arrive :
    (bytes fds : List ℕ) (num_fds : ℕ) (rc : ℤ) (control : Option Control) (flagged : Bool)
    → 0 < length fds
    → length fds ≤ num_fds
    → rc ≡ pos (length bytes)
    → control ≡ some (record { rights = true; payload = 4 * length fds; fds = fds })
    → flagged ≡ false
    → recv_with_fds true num_fds (record { rc = rc; control = control; flagged = flagged })
      ≡ done (record { rc = pos (length bytes); fds = some (fds, length fds); closed = [] })
unfolding recv_with_fds deliver
parts_arrive bytes fds num_fds rc control flagged some_fds room erc econtrol eflagged =
    rw (erc, econtrol, eflagged)
      (rw (recv_with_fds, count_all fds num_fds some_fds room) (rw (take-length fds) refl))

-- Descriptors that are sent and arrive as they were sent, unflagged, at a receiver with room for
-- them, are received in order, with their number.
pub fds_arrive :
    (bytes fds : List ℕ) (num_fds : ℕ) (m : Incoming) {out : Outgoing}
    → 0 < length fds
    → length fds ≤ num_fds
    → send_with_fds bytes (some fds) (length fds) ≡ done out
    → m.rc ≡ pos (length out.bytes)
    → m.control ≡ out.control
    → m.flagged ≡ false
    → recv_with_fds true num_fds m
      ≡ done (record { rc = pos (length bytes); fds = some (fds, length fds); closed = [] })
unfolding recv_with_fds send_with_fds deliver
fds_arrive bytes [] num_fds m some_fds room e rc control unflagged =
    absurd (omega (arith, some_fds))
fds_arrive bytes (x ∷ xs) num_fds m some_fds room e rc control unflagged =
    let out = done-injective e in
    parts_arrive bytes (x ∷ xs) num_fds m.rc m.control m.flagged some_fds room
      (rc ∙ ap (λ o. pos (length o.bytes)) (sym out))
      (control
        ∙ ap (λ o. o.control) (sym out)
        ∙ ap (λ l. some (record { rights = true; payload = 4 * length (x ∷ xs); fds = l }))
            (take-length (x ∷ xs)))
      unflagged
