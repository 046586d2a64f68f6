-- ===== src/Campaigns/Retrying/Unaligned.antt =====
-- internal/app/campaign/service.go: the end of Retry where realignCounters fails.
