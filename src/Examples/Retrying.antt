-- ===== src/Examples/Retrying.antt =====
-- A call of the Bot API that fails three times, once with a delay that the service asks for.
use khala_network.Common.{◌≡◌, refl, [], ◌∷◌, none, some, false, if◌then◌else◌, ◌==◌}
use khala_network.Telegram.{
  api_error, retry_after, is_permanent, next_backoff, Calls, retry_from, call_retry,
}
use khala_network.Telegram.Retries.{Run, call_retry-Run}

abbrev flaky : Calls
flaky = record {
  call = λ n.
      if n == 3 then none else some (if n == 1 then api_error 429 7000000000 else api_error 502 0);
  is_cancelled = λ n. false;
  sleep_fails = λ n. false;
}

flaky_retried :
    call_retry flaky
    ≡ record { error = none; calls = 4; sleeps = 1000000000 ∷ 7000000000 ∷ 2000000000 ∷ [] }
unfolding call_retry retry_from retry_after is_permanent next_backoff
flaky_retried = refl

-- The witness.
call_retry-Run_example : Run flaky 0 10 0 (call_retry flaky)
call_retry-Run_example = call_retry-Run flaky
