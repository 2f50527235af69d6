-- ===== src/NameServer/Serve.antt =====
-- A registration and the questions after it, in src/name_server/name_server.c.
use mathlib.Core.Path.{◌∙◌, ap}
use armv4_kernel.Prelude.{ℕ, suc, ◌<◌, ◌≡◌, ◌≢◌, Option, none, some, arith, ◌==◌, true}
use armv4_kernel.CString.{Bytes}
use armv4_kernel.CString.Copy.{text}
use armv4_kernel.CString.Compare.{IsBytes}
use armv4_kernel.NameServer.{NameMap, MsgType, max_names, max_name_len, serve, name_map_find}
use armv4_kernel.NameServer.Map.{IsNameMap, down}
use armv4_kernel.NameServer.Find.{
  search, reply, reply_same, name_map_find-search, inserted, insert-eq, inserted-IsNameMap,
  same_text, other_text, old_entry,
}

pub serve-who_is :
    (nm : NameMap) (wanted : Bytes) (asker : ℕ) (found : Option ℕ)
    → name_map_find nm wanted ≡ some found
    → serve MsgType.who_is wanted asker nm ≡ some (some (reply found nm), nm)
unfolding serve
serve-who_is nm wanted asker none e = rw e
serve-who_is nm wanted asker (some entry) e = rw e

own_tid :
    {nm : NameMap} {n : ℕ} (h : IsNameMap nm n) (name : Bytes) (sender : ℕ) (free : n < max_names)
    (hb : IsBytes name)
    → reply (some n) (inserted h name sender free hb) ≡ sender
own_tid {nm} {n} h name sender free hb =
    let here : (n == n) ≡ true = ground arith in rw (reply, here)

-- What a registration achieves.
pub record Registered (nm : NameMap) (n : ℕ) (name : Bytes) (sender : ℕ) (nm' : NameMap)
    : Type 0 where
  pub map : IsNameMap nm' (suc n)
  pub own_name :
      (wanted : Bytes) (asker : ℕ)
      → IsBytes wanted
      → text max_name_len 0 wanted ≡ text max_name_len 0 name
      → serve MsgType.who_is wanted asker nm' ≡ some (some sender, nm')
  pub other_names :
      (wanted : Bytes) (asker : ℕ)
      → IsBytes wanted
      → text max_name_len 0 wanted ≢ text max_name_len 0 name
      → (answer : ℕ) × (serve MsgType.who_is wanted asker nm ≡ some (some answer, nm))
        × (serve MsgType.who_is wanted asker nm' ≡ some (some answer, nm'))

-- While fewer than 256 names were registered, a registration is answered with 0. From then on the
-- question for a name with the same text, up to 12 bytes, is answered with the sender's id, also where
-- the name was registered before, and the question for any other name is answered as before.
pub serve-register :
    {nm : NameMap} {n : ℕ} (h : IsNameMap nm n) (name : Bytes) (sender : ℕ)
    → n < max_names
    → IsBytes name
    → (nm' : NameMap) × (serve MsgType.register name sender nm ≡ some (some 0, nm'))
      × Registered nm n name sender nm'
unfolding serve
serve-register {nm} {n} h name sender free hb = (
  inserted h name sender free hb,
  rw (insert-eq h name sender free hb),
  record {
    map = inserted-IsNameMap h name sender free hb;
    own_name = λ wanted asker wb e.
        serve-who_is _ wanted asker (some n) (same_text h name sender free hb wanted wb e)
        ∙ ap (λ r. some (some r, inserted h name sender free hb)) (own_tid h name sender free hb);
    other_names = λ wanted asker wb ne.
        let found : Option ℕ = search (down n) wanted nm in
        (
          reply found nm,
          serve-who_is nm wanted asker found (name_map_find-search h wanted),
          serve-who_is (inserted h name sender free hb) wanted asker found
                (other_text h name sender free hb wanted wb ne)
              ∙ ap (λ r. some (some r, inserted h name sender free hb))
                  (reply_same (down n) wanted nm (inserted h name sender free hb)
                    (old_entry h name sender free hb)),
        );
  },
)
