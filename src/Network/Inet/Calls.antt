-- ===== src/Network/Inet/Calls.antt =====
-- What a history of calls opened, closed and tried.
use libbaalue.Prelude.{
  ◌≡◌, refl, List, [], ◌∷◌, ◌++◌, if◌then◌else◌, ℤ, negsuc, eqb_ℤ, Bool-cases, inl, inr,
}
use libbaalue.Network.Inet.{
  AddrInfo, Call, socket, reuse_addr, setsockopt, connect, bind, listen, close, alarm, handler_set,
  handler_restored,
}

-- The descriptors that socket gave, those that were closed, and the addresses that were tried.
abbrev pub opened : List Call → List ℤ
opened [] = []
opened (socket a r ∷ h) = let rest = opened h in if eqb_ℤ r (negsuc 0) then rest else r ∷ rest
opened (reuse_addr s ∷ h) = opened h
opened (setsockopt s o n ∷ h) = opened h
opened (connect s a ∷ h) = opened h
opened (bind s a ∷ h) = opened h
opened (listen s n ∷ h) = opened h
opened (close s ∷ h) = opened h
opened (alarm n ∷ h) = opened h
opened (handler_set ∷ h) = opened h
opened (handler_restored ∷ h) = opened h

abbrev pub closed : List Call → List ℤ
closed [] = []
closed (socket a r ∷ h) = closed h
closed (reuse_addr s ∷ h) = closed h
closed (setsockopt s o n ∷ h) = closed h
closed (connect s a ∷ h) = closed h
closed (bind s a ∷ h) = closed h
closed (listen s n ∷ h) = closed h
closed (close s ∷ h) = s ∷ closed h
closed (alarm n ∷ h) = closed h
closed (handler_set ∷ h) = closed h
closed (handler_restored ∷ h) = closed h

abbrev pub tried : List Call → List AddrInfo
tried [] = []
tried (socket a r ∷ h) = a ∷ tried h
tried (reuse_addr s ∷ h) = tried h
tried (setsockopt s o n ∷ h) = tried h
tried (connect s a ∷ h) = tried h
tried (bind s a ∷ h) = tried h
tried (listen s n ∷ h) = tried h
tried (close s ∷ h) = tried h
tried (alarm n ∷ h) = tried h
tried (handler_set ∷ h) = tried h
tried (handler_restored ∷ h) = tried h

pub opened-append : (g h : List Call) → opened (g ++ h) ≡ opened g ++ opened h
opened-append [] h = refl
opened-append (socket a r ∷ g) h = elim (Bool-cases (eqb_ℤ r (negsuc 0))) [
  | inl e ↦ rw (e, opened-append g h)
  | inr e ↦ rw (e, opened-append g h)
]
opened-append (reuse_addr s ∷ g) h = opened-append g h
opened-append (setsockopt s o n ∷ g) h = opened-append g h
opened-append (connect s a ∷ g) h = opened-append g h
opened-append (bind s a ∷ g) h = opened-append g h
opened-append (listen s n ∷ g) h = opened-append g h
opened-append (close s ∷ g) h = opened-append g h
opened-append (alarm n ∷ g) h = opened-append g h
opened-append (handler_set ∷ g) h = opened-append g h
opened-append (handler_restored ∷ g) h = opened-append g h

pub closed-append : (g h : List Call) → closed (g ++ h) ≡ closed g ++ closed h
closed-append [] h = refl
closed-append (socket a r ∷ g) h = closed-append g h
closed-append (reuse_addr s ∷ g) h = closed-append g h
closed-append (setsockopt s o n ∷ g) h = closed-append g h
closed-append (connect s a ∷ g) h = closed-append g h
closed-append (bind s a ∷ g) h = closed-append g h
closed-append (listen s n ∷ g) h = closed-append g h
closed-append (close s ∷ g) h = rw (closed-append g h)
closed-append (alarm n ∷ g) h = closed-append g h
closed-append (handler_set ∷ g) h = closed-append g h
closed-append (handler_restored ∷ g) h = closed-append g h

pub tried-append : (g h : List Call) → tried (g ++ h) ≡ tried g ++ tried h
tried-append [] h = refl
tried-append (socket a r ∷ g) h = rw (tried-append g h)
tried-append (reuse_addr s ∷ g) h = tried-append g h
tried-append (setsockopt s o n ∷ g) h = tried-append g h
tried-append (connect s a ∷ g) h = tried-append g h
tried-append (bind s a ∷ g) h = tried-append g h
tried-append (listen s n ∷ g) h = tried-append g h
tried-append (close s ∷ g) h = tried-append g h
tried-append (alarm n ∷ g) h = tried-append g h
tried-append (handler_set ∷ g) h = tried-append g h
tried-append (handler_restored ∷ g) h = tried-append g h
