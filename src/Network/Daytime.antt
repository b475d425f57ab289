-- ===== src/Network/Daytime.antt =====
-- baa_daytime_server_th of src/network.c: the endless loop, over what accept, ctime and write give.
use libbaalue.Prelude.{
  ◌▷◌, ℕ, ◌-◌, ◌≡◌, refl, ◌∙◌, sym, not, List, [], ◌∷◌, ◌++◌, append_assoc, append-nil, arith,
  if◌then◌else◌, length, length-append, length-take_le, take, take_all, map, ℤ, pos, negsuc, eqb_ℤ,
  Bool-cases, inl, inr,
}
use libbaalue.Protocol.{baa_maxline}

-- A turn: the descriptor of accept, the text of ctime, the value of write.
pub record Turn : Type 0 where
  pub confd : ℤ
  pub ctime : List ℕ
  pub written : ℤ

pub data Event : Type 0 where
  accepted : ℤ → Event
  write : ℤ → List ℕ → Event
  write_failed : List ℕ → Event
  close : ℤ → Event

-- `snprintf(buf, sizeof(buf), "%.24s\r\n", ...)`.
abbrev pub daytime_text : List ℕ → List ℕ
daytime_text ctime = take (baa_maxline - 1) (take 24 ctime ++ 13 ∷ 10 ∷ [])

unfoldable pub daytime_round : Turn → List Event → List Event
daytime_round t h =
    let buf = daytime_text t.ctime in
    let g = h ▷ accepted t.confd ▷ write t.confd buf in
    if eqb_ℤ t.confd (negsuc 0)
    then h
    else if not (eqb_ℤ t.written (pos (length buf)))
    then g ▷ write_failed buf
    else g

unfoldable pub baa_daytime_server_th : List Turn → List Event → List Event
unfolding daytime_round
baa_daytime_server_th [] h = h
baa_daytime_server_th (t ∷ ts) h = baa_daytime_server_th ts (daytime_round t h)

-- What was written, and which descriptors were accepted and closed.
abbrev pub writes : List Event → List (ℤ × List ℕ)
writes [] = []
writes (accepted fd ∷ h) = writes h
writes (write fd buf ∷ h) = (fd, buf) ∷ writes h
writes (write_failed buf ∷ h) = writes h
writes (close fd ∷ h) = writes h

abbrev pub accepted_fds : List Event → List ℤ
accepted_fds [] = []
accepted_fds (accepted fd ∷ h) = fd ∷ accepted_fds h
accepted_fds (write fd buf ∷ h) = accepted_fds h
accepted_fds (write_failed buf ∷ h) = accepted_fds h
accepted_fds (close fd ∷ h) = accepted_fds h

abbrev pub closed_fds : List Event → List ℤ
closed_fds [] = []
closed_fds (accepted fd ∷ h) = closed_fds h
closed_fds (write fd buf ∷ h) = closed_fds h
closed_fds (write_failed buf ∷ h) = closed_fds h
closed_fds (close fd ∷ h) = fd ∷ closed_fds h

-- The connections of the turns, each with the time and date that it is sent.
abbrev pub served : List Turn → List (ℤ × List ℕ)
served [] = []
served (t ∷ ts) =
    let rest = served ts in
    if eqb_ℤ t.confd (negsuc 0) then rest else (t.confd, take 24 t.ctime ++ 13 ∷ 10 ∷ []) ∷ rest

writes-append : (g h : List Event) → writes (g ++ h) ≡ writes g ++ writes h
writes-append [] h = refl
writes-append (accepted fd ∷ g) h = writes-append g h
writes-append (write fd buf ∷ g) h = rw (writes-append g h)
writes-append (write_failed buf ∷ g) h = writes-append g h
writes-append (close fd ∷ g) h = writes-append g h

accepted_fds-append : (g h : List Event) → accepted_fds (g ++ h) ≡ accepted_fds g ++ accepted_fds h
accepted_fds-append [] h = refl
accepted_fds-append (accepted fd ∷ g) h = rw (accepted_fds-append g h)
accepted_fds-append (write fd buf ∷ g) h = accepted_fds-append g h
accepted_fds-append (write_failed buf ∷ g) h = accepted_fds-append g h
accepted_fds-append (close fd ∷ g) h = accepted_fds-append g h

closed_fds-append : (g h : List Event) → closed_fds (g ++ h) ≡ closed_fds g ++ closed_fds h
closed_fds-append [] h = refl
closed_fds-append (accepted fd ∷ g) h = closed_fds-append g h
closed_fds-append (write fd buf ∷ g) h = closed_fds-append g h
closed_fds-append (write_failed buf ∷ g) h = closed_fds-append g h
closed_fds-append (close fd ∷ g) h = rw (closed_fds-append g h)

ruleset event_laws =
    (writes-append, accepted_fds-append, closed_fds-append, append_assoc, append-nil)

-- The text is not cut by the buffer.
text_fits : (ctime : List ℕ) → daytime_text ctime ≡ take 24 ctime ++ 13 ∷ 10 ∷ []
text_fits ctime =
    take_all (take 24 ctime ++ 13 ∷ 10 ∷ []) 253
      (omega (arith, length-take_le 24 ctime, length-append (take 24 ctime) (13 ∷ 10 ∷ [])))

daytime_round_lem :
    (t : Turn) (h : List Event)
    → (writes (daytime_round t h) ≡ writes h ++ served (t ∷ []))
      × (accepted_fds (daytime_round t h) ≡ accepted_fds h ++ map (λ p. p.0) (served (t ∷ [])))
      × (closed_fds (daytime_round t h) ≡ closed_fds h)
unfolding daytime_round
daytime_round_lem t h =
    let buf = daytime_text t.ctime in
    elim (Bool-cases (eqb_ℤ t.confd (negsuc 0))) [
      | inl e ↦ rw e (simp event_laws, simp event_laws, refl)
      | inr e ↦ elim (Bool-cases (eqb_ℤ t.written (pos (length buf)))) [
        | inl w ↦
            rw (e, w) (rw (text_fits t.ctime) (simp event_laws), simp event_laws, simp event_laws)
        | inr w ↦
            rw (e, w) (rw (text_fits t.ctime) (simp event_laws), simp event_laws, simp event_laws)
      ]
    ]

served_cons : (t : Turn) (ts : List Turn) → served (t ∷ ts) ≡ served (t ∷ []) ++ served ts
served_cons t ts = elim (Bool-cases (eqb_ℤ t.confd (negsuc 0))) [ inl e ↦ rw e | inr e ↦ rw e ]

map-append :
    (f : ℤ × List ℕ → ℤ) (xs ys : List (ℤ × List ℕ)) → map f (xs ++ ys) ≡ map f xs ++ map f ys
map-append f [] ys = refl
map-append f (x ∷ xs) ys = rw (map-append f xs ys)

-- Each connection that accept gives is sent the first 24 bytes of the text of ctime with CR LF
-- behind them, in order, and nothing else is written; no descriptor is ever closed.
pub baa_daytime_server_th_lem :
    (ts : List Turn) (h : List Event)
    → (writes (baa_daytime_server_th ts h) ≡ writes h ++ served ts)
      × (accepted_fds (baa_daytime_server_th ts h) ≡ accepted_fds h ++ map (λ p. p.0) (served ts))
      × (closed_fds (baa_daytime_server_th ts h) ≡ closed_fds h)
unfolding baa_daytime_server_th
baa_daytime_server_th_lem [] h = (sym (append-nil _), sym (append-nil _), refl)
baa_daytime_server_th_lem (t ∷ ts) h =
    let (w, a, c) = daytime_round_lem t h in
    let (w', a', c') = baa_daytime_server_th_lem ts (daytime_round t h) in
    (
      w' ∙ rw (w, served_cons t ts) (append_assoc (writes h) (served (t ∷ [])) (served ts)),
      a'
          ∙ rw (a, served_cons t ts, map-append)
              (append_assoc (accepted_fds h) (map (λ p. p.0) (served (t ∷ [])))
                (map (λ p. p.0) (served ts))),
      c' ∙ c,
    )
