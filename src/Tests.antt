-- ===== src/Tests.antt =====
-- The theorems at concrete inputs, and runs of the definitions.
mod Rates
mod Fetching
mod Repeats
mod Incomes
mod Caching
mod Access
mod Printed
mod Records
mod Stores
mod WebRoutes
mod Requests
mod Commands
