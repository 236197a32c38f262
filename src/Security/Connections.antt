-- ===== src/Security/Connections.antt =====
-- connection-limiter.ts. An address is the text by which the gateway knows a client.
pub mod Laws
use looplink.Base.{
  ℕ, ◌+◌, ◌-◌, Bool, true, false, Option, none, some, [], leb, ◌==◌, if◌then◌else◌, ◌||◌, ite,
  ℕ_discrete, dec_le,
}
use looplink.JsMap
use looplink.JsMap.{JsMap}
use looplink.Text.{Text, text_key}

pub data AdmitResult : Type 0 where
  ok : AdmitResult
  global_limit ip_limit : AdmitResult

pub record ConnectionLimiter : Type 0 where
  pub max_global : ℕ
  pub max_per_ip : ℕ
  pub counts_by_ip : JsMap Text ℕ
  pub total : ℕ

unfoldable pub init : ℕ → ℕ → ConnectionLimiter
init max_global max_per_ip = record {
  max_global = max_global;
  max_per_ip = max_per_ip;
  counts_by_ip = [];
  total = 0;
}

abbrev pub or_zero : Option ℕ → ℕ
or_zero none = 0
or_zero (some n) = n

-- `this.countsByIp.get(ip) ?? 0`
unfoldable pub count_for : ConnectionLimiter → Text → ℕ
count_for l ip = or_zero (JsMap.get ip l.counts_by_ip)

unfoldable pub try_admit : ConnectionLimiter → Text → ConnectionLimiter × AdmitResult
unfolding count_for
try_admit l ip =
    if leb l.max_global l.total
    then (l, global_limit)
    else if leb l.max_per_ip (count_for l ip)
    then (l, ip_limit)
    else (
      record l {
        counts_by_ip = JsMap.set ip (count_for l ip + 1) l.counts_by_ip;
        total = l.total + 1;
      },
      ok,
    )

-- `Math.max(0, this.total - 1)` is the subtraction that stops at 0.
release_from : ConnectionLimiter → Text → Option ℕ → ConnectionLimiter
release_from l ip none = l
release_from l ip (some current) = if leb current 0 then l else record l {
  counts_by_ip =
      (if current == 1
        then JsMap.delete ip l.counts_by_ip
        else JsMap.set ip (current - 1) l.counts_by_ip);
  total = l.total - 1;
}

unfoldable pub release : ConnectionLimiter → Text → ConnectionLimiter
unfolding release_from
release l ip = release_from l ip (JsMap.get ip l.counts_by_ip)
